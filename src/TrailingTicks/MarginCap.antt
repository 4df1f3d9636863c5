-- ===== src/TrailingTicks/MarginCap.antt =====
-- The margin of a trailing stop that fires, in src/worker/order-matcher.ts.
use hy_paper.Prelude.{ℕ, suc, ◌≡◌, true, false, some, arith, inl, inr, Option-cases}
use hy_paper.Prelude.Maps.{nat_keys}
use hy_paper.Decimal.{Decimal, num, mul, lte, is_zero, round_to_decimals}
use hy_paper.Decimal.Order.{IsOrdered}
use hy_paper.Decimal.Exact.{IsExact}
use hy_paper.AssetMeta.{get_leverage_setting}
use hy_paper.Orders.{Order}
use hy_paper.Store.{Store}
use hy_paper.Env.{Env}
use hy_paper.Margin.{available_margin, check_margin_for_order, max_affordable_order_size}
use hy_paper.Margin.Affordable.{affordable_size_passes, unconstrained_passes}
use hy_paper.TrailingTicks.{fire_size}

module _ {N : Type 0} ⦃d : Decimal N⦄ where
  fire_size-within :
      (order : IsOrdered N) (env : Env N) (o : Order N) (mark : N) (s : Store N) (cap sz : N)
      → o.reduce_only ≡ false
      → max_affordable_order_size env o.user_id o.asset o.is_buy mark s ≡ some cap
      → lte (num 0) cap ≡ true
      → lte o.sz (num 0) ≡ false
      → fire_size env o mark s ≡ some sz
      → (lte sz cap ≡ true) × (lte cap (num 0) ≡ false)
  unfolding fire_size
  fire_size-within order env o mark s cap sz r c nonneg p h =
      let most : N = round_to_decimals cap o.trailing.tr_sz_dec in
      ground (
        arith,
        order.places_down_lte cap o.trailing.tr_sz_dec nonneg,
        order.lte_trans o.sz most cap,
        order.lte_trans o.sz cap (num 0),
        order.lte_trans most cap (num 0),
      )

  -- A trailing stop that is not reduce-only fires at a size that passes the margin check
  -- at the mark, so that it never needs more margin than is free, whether it fires whole or in part. The
  -- size of the stop, the mark and the leverage are positive, the arithmetic is exact, and
  -- the affordable size at the mark is a decimal.
  pub fired_size_passes_check :
      (order : IsOrdered N) (exact : IsExact N) (env : Env N) (o : Order N) (mark : N) (s : Store N)
      (leverage : ℕ) (quotient sz : N)
      → o.reduce_only ≡ false
      → lte o.sz (num 0) ≡ false
      → (get_leverage_setting env.market o.user_id o.asset).leverage ≡ suc leverage
      → lte (num 0) mark ≡ true
      → is_zero mark ≡ false
      → mul quotient mark ≡ mul (available_margin env o.user_id o.asset s) (num (suc leverage))
      → fire_size env o mark s ≡ some sz
      → check_margin_for_order env o.user_id o.asset o.is_buy sz mark s ≡ true
  fired_size_passes_check order exact env o mark s leverage q sz r p lev m nonzero e h =
      elim (Option-cases (max_affordable_order_size env o.user_id o.asset o.is_buy mark s)) [
        | inl c ↦ unconstrained_passes order exact env o.user_id o.asset o.is_buy sz mark s c
        | inr (cap, c) ↦
            let (nonneg, passes) =
              affordable_size_passes order exact env o.user_id o.asset o.is_buy mark s leverage cap
                q c lev m nonzero e in
            let (fits, positive) = fire_size-within order env o mark s cap sz r c nonneg p h in
            passes sz positive fits
      ]
