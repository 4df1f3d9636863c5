-- ===== src/Ticks/Price.antt =====
-- The limit price of an order on a tick of src/worker/order-matcher.ts.
use hy_paper.Prelude.{◌≡◌, true, false, Option, some, arith, inl, inr, Option-cases}
use hy_paper.Decimal.{Decimal}
use hy_paper.Decimal.Order.{IsOrdered}
use hy_paper.Slippage.{beyond}
use hy_paper.Slippage.Limit.{compute_vwap_limit}
use hy_paper.Orders.{Order}
use hy_paper.Env.{Env}
use hy_paper.Ticks.{book_side, compute_fill_price, should_fill}

module _ {N : Type 0} ⦃d : Decimal N⦄ (laws : IsOrdered N) where
  open laws use {lte_refl}

  -- The price of a fill is within the limit when the fallback is.
  pub compute_fill_price-within :
      (env : Env N) (o : Order N) (fallback_px : N) (limit_px : Option N)
      → beyond limit_px o.is_buy fallback_px ≡ false
      → beyond limit_px o.is_buy (compute_fill_price env o fallback_px limit_px) ≡ false
  unfolding compute_fill_price
  compute_fill_price-within env o fb limit_px h = elim (Option-cases (env.book o.coin)) [
    | inl e ↦ rw (e, compute_fill_price) h
    | inr (book, e) ↦
        rw (e, compute_fill_price)
          (elim (compute_vwap_limit laws (some (book_side o.is_buy book)) o.sz fb o.is_buy
            limit_px) [ inl (_, within) ↦ within | inr (_, same) ↦ rw same h ])
  ]

  -- A resting order that fills on a tick buys at its limit price or below, or sells at it or above, at any
  -- depth of the book.
  pub resting_price_within_limit :
      (env : Env N) (o : Order N) (mid : N)
      → should_fill o mid ≡ true
      → beyond (some o.limit_px) o.is_buy (compute_fill_price env o mid (some o.limit_px)) ≡ false
  unfolding should_fill beyond
  resting_price_within_limit env o mid h =
      compute_fill_price-within env o mid (some o.limit_px) (ground arith)
