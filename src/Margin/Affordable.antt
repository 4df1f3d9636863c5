-- ===== src/Margin/Affordable.antt =====
-- maxAffordableOrderSize of src/engine/margin.ts against checkMarginForOrder.
use Prim.Native.String.{String}
use hy_paper.Prelude.{
  ℕ, suc, ◌≡◌, refl, sym, Bool, true, false, none, some, [], ◌∷◌, arith, inl, inr, Bool-cases,
}
use hy_paper.Decimal.{Decimal, num, mul, div, gt, lte, is_zero}
use hy_paper.Decimal.Order.{IsOrdered}
use hy_paper.Decimal.Exact.{IsExact}
use hy_paper.Decimal.Ring.{ring_eq, var, times, nought}
use hy_paper.AssetMeta.{get_leverage_setting}
use hy_paper.Store.{Store}
use hy_paper.Env.{Env}
use hy_paper.NextPosition.{current_szi}
use hy_paper.Margin.{
  available_margin, is_reducing, check_margin_for_order, max_affordable_order_size,
}

module _ {N : Type 0} ⦃d : Decimal N⦄ (order : IsOrdered N) (exact : IsExact N) where
  -- A notional size of at most the margin times the leverage needs at most the margin.
  notional_within :
      (available sz most px : N) (leverage : ℕ)
      → lte sz most ≡ true
      → lte (num 0) px ≡ true
      → mul most px ≡ mul available (num (suc leverage))
      → lte (div (mul sz px) (num (suc leverage))) available ≡ true
  notional_within available sz most px leverage h p e =
      rw
        (← exact.div_lem (mul most px) (num (suc leverage)) available (order.num_ne_zero leverage)
          (sym e))
        (order.div_mono _ _ _ (order.num_mono 0 (suc leverage) (omega arith))
          (order.mul_mono _ _ _ p h))

  size_within :
      (available sz most px needed : N) (leverage : ℕ)
      → lte (num 0) px ≡ true
      → is_zero px ≡ false
      → mul most px ≡ mul available (num (suc leverage))
      → mul needed (num (suc leverage)) ≡ mul sz px
      → lte (div (mul sz px) (num (suc leverage))) available ≡ true
      → lte sz most ≡ true
  size_within available sz most px needed leverage p nonzero e f h =
      let notional : lte (mul sz px) (mul most px) ≡ true =
        rw (← f, e)
          (order.mul_mono _ _ _ (order.num_mono 0 (suc leverage) (omega arith))
            (rw (exact.div_lem _ _ needed (order.num_ne_zero leverage) f) at h)) in
      rw
        (
          exact.div_lem (mul sz px) px sz nonzero refl,
          exact.div_lem (mul most px) px most nonzero refl,
        )
        at (order.div_mono _ _ px p notional)

  check_margin_lem :
      (env : Env N) (user : String) (asset : ℕ) (is_buy : Bool) (sz px : N) (s : Store N)
      → is_reducing is_buy (current_szi (s.positions (user, asset))) ≡ false
      → check_margin_for_order env user asset is_buy sz px s
        ≡ lte
            (div (mul sz px) (num (get_leverage_setting env.market user asset).leverage))
            (available_margin env user asset s)
  unfolding check_margin_for_order
  check_margin_lem env user asset is_buy sz px s h = ground arith

  max_affordable_lem :
      (env : Env N) (user : String) (asset : ℕ) (is_buy : Bool) (px : N) (s : Store N) (most : N)
      → max_affordable_order_size env user asset is_buy px s ≡ some most
      → is_reducing is_buy (current_szi (s.positions (user, asset))) ≡ false
  unfolding max_affordable_order_size
  max_affordable_lem env user asset is_buy px s most h = ground arith

  max_affordable_div :
      (env : Env N) (user : String) (asset : ℕ) (is_buy : Bool) (px : N) (s : Store N) (most q : N)
      → max_affordable_order_size env user asset is_buy px s ≡ some most
      → gt (available_margin env user asset s) (num 0) ≡ true
      → is_zero px ≡ false
      → mul q px
        ≡ mul
            (available_margin env user asset s)
            (num (get_leverage_setting env.market user asset).leverage)
      → most ≡ q
  unfolding max_affordable_order_size
  max_affordable_div env user asset is_buy px s most q h k nonzero e =
      ground (arith, exact.div_lem _ px q nonzero e)

  -- Where the account has free margin, an order that opens or grows a position passes the margin check
  -- exactly if its size is at most the affordable size at its price. The price is
  -- positive, the leverage is not zero, the arithmetic is exact, and the two quotients, the
  -- affordable size and the margin that the order needs, are decimals.
  pub check_passes_up_to_affordable_size :
      (env : Env N) (user : String) (asset : ℕ) (is_buy : Bool) (sz px : N) (s : Store N)
      (leverage : ℕ) (most quotient needed : N)
      → max_affordable_order_size env user asset is_buy px s ≡ some most
      → gt (available_margin env user asset s) (num 0) ≡ true
      → (get_leverage_setting env.market user asset).leverage ≡ suc leverage
      → lte (num 0) px ≡ true
      → is_zero px ≡ false
      → mul quotient px ≡ mul (available_margin env user asset s) (num (suc leverage))
      → mul needed (num (suc leverage)) ≡ mul sz px
      → check_margin_for_order env user asset is_buy sz px s ≡ lte sz most
  check_passes_up_to_affordable_size env user asset is_buy sz px s leverage most q needed h k lev p
        nonzero e f =
      let same : most ≡ q =
        max_affordable_div env user asset is_buy px s most q h k nonzero (rw lev e) in
      let avail = available_margin env user asset s in
      rw
        (
          check_margin_lem env user asset is_buy sz px s
              (max_affordable_lem env user asset is_buy px s most h),
          lev,
          same,
        )
        (elim (Bool-cases (lte sz q)) [
          | inl fits ↦ rw (fits, notional_within avail sz q px leverage fits p e) refl
          | inr over ↦ elim (Bool-cases (lte (div (mul sz px) (num (suc leverage))) avail)) [
            | inl passes ↦
                rw (passes, size_within avail sz q px needed leverage p nonzero e f passes) refl
            | inr fails ↦ rw (over, fails) refl
          ]
        ])

  affordable_nonneg :
      (available q px : N) (leverage : ℕ)
      → gt available (num 0) ≡ true
      → lte (num 0) px ≡ true
      → is_zero px ≡ false
      → mul q px ≡ mul available (num (suc leverage))
      → lte (num 0) q ≡ true
  affordable_nonneg available q px leverage k p nonzero e =
      let lev : N = num (suc leverage) in
      let product : lte (num 0) (mul available lev) ≡ true =
        rw (ring_eq exact (lev ∷ []) (times nought (var 0)) nought refl) at (
          order.mul_mono (num 0) available lev (order.num_mono 0 (suc leverage) (omega arith))
            (ground (arith, order.lte_total available (num 0)))) in
      rw (order.div_zero px nonzero, exact.div_lem _ px q nonzero e) at
        (order.div_mono _ _ px p product)

  -- An order that reduces is not constrained.
  pub unconstrained_passes :
      (env : Env N) (user : String) (asset : ℕ) (is_buy : Bool) (sz px : N) (s : Store N)
      → max_affordable_order_size env user asset is_buy px s ≡ none
      → check_margin_for_order env user asset is_buy sz px s ≡ true
  unfolding max_affordable_order_size check_margin_for_order
  unconstrained_passes env user asset is_buy sz px s h = ground arith

  -- Without free margin nothing is affordable.
  max_affordable_zero :
      (env : Env N) (user : String) (asset : ℕ) (is_buy : Bool) (px most : N) (s : Store N)
      → max_affordable_order_size env user asset is_buy px s ≡ some most
      → gt (available_margin env user asset s) (num 0) ≡ false
      → most ≡ num 0
  unfolding max_affordable_order_size
  max_affordable_zero env user asset is_buy px most s h k = ground arith

  -- The affordable size is not negative, and up to it, if it is not zero, an order passes.
  pub affordable_size_passes :
      (env : Env N) (user : String) (asset : ℕ) (is_buy : Bool) (px : N) (s : Store N)
      (leverage : ℕ) (most quotient : N)
      → max_affordable_order_size env user asset is_buy px s ≡ some most
      → (get_leverage_setting env.market user asset).leverage ≡ suc leverage
      → lte (num 0) px ≡ true
      → is_zero px ≡ false
      → mul quotient px ≡ mul (available_margin env user asset s) (num (suc leverage))
      → (lte (num 0) most ≡ true)
        × ((sz : N)
            → lte most (num 0) ≡ false
            → lte sz most ≡ true
            → check_margin_for_order env user asset is_buy sz px s ≡ true)
  affordable_size_passes env user asset is_buy px s leverage most q h lev p nonzero e =
      elim (Bool-cases (gt (available_margin env user asset s) (num 0))) [
        | inl k ↦
            let same : most ≡ q =
              max_affordable_div env user asset is_buy px s most q h k nonzero (rw lev e) in
            (
              rw same (affordable_nonneg _ q px leverage k p nonzero e),
              λ sz positive fits.
                  rw
                    (
                      check_margin_lem env user asset is_buy sz px s
                          (max_affordable_lem env user asset is_buy px s most h),
                      lev,
                    )
                    (notional_within _ sz q px leverage (rw same at fits) p e),
            )
        | inr k ↦
            let same : most ≡ num 0 = max_affordable_zero env user asset is_buy px most s h k in
            (
              rw same (order.lte_refl (num 0)),
              λ sz positive fits. ground (arith, order.lte_refl (num 0)),
            )
      ]
