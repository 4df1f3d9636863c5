-- ===== src/Margin/LiquidationPrice.antt =====
-- The liquidation price of src/engine/margin.ts against the check of src/engine/liquidation.ts.
use hy_paper.Prelude.{ℕ, zero, suc, ◌≡◌, refl, ap, ◌∙◌, false, List, [], ◌∷◌, inl, inr, Bool-cases}
use hy_paper.Decimal.{Decimal, num, add, sub, mul, abs, gt, lte, is_zero}
use hy_paper.Decimal.Order.{IsOrdered}
use hy_paper.Decimal.Exact.{IsExact}
use hy_paper.Decimal.Ring.{ring_eq, var, plus, minus, times, one}
use hy_paper.Fill.{calculate_position_unrealized_pnl}
use hy_paper.MarginTiers.{Tier, maintenance_margin_for_notional}
use hy_paper.Margin.{rate_at, deduction_at, solve_above, solve_below, solve, settle}

module _ {N : Type 0} ⦃d : Decimal N⦄ where
  -- The quotient of `solve` at a notional size is a decimal, so it is found exactly.
  abbrev pub IsSolved : List (Tier N) → ℕ → N → N → N → N → Type 0
  IsSolved tiers leverage szi entry_px margin px =
      let notional = mul (abs szi) px in
      mul px (solve_below (gt szi (num 0)) (abs szi) (rate_at tiers leverage notional))
      ≡ solve_above (gt szi (num 0)) (mul (abs szi) entry_px) margin
          (deduction_at tiers leverage notional)

  module _ (order : IsOrdered N) (exact : IsExact N) where
    meets_long :
        (p s e m r k : N)
        → mul p (mul s (sub (num 1) r)) ≡ sub (sub (mul s e) m) (sub (mul (mul s p) r) k)
        → add m (mul (sub p e) s) ≡ k
    meets_long p s e m r k h =
        ring_eq exact (p ∷ s ∷ e ∷ m ∷ r ∷ k ∷ [])
          (plus (var 3) (times (minus (var 0) (var 2)) (var 1)))
          (plus (times (var 0) (times (var 1) (minus one (var 4))))
            (plus (minus (var 3) (times (var 1) (var 2))) (times (times (var 1) (var 0)) (var 4))))
          refl
        ∙ ap (λ t. add t (add (sub m (mul s e)) (mul (mul s p) r))) h
        ∙ ring_eq exact (p ∷ s ∷ e ∷ m ∷ r ∷ k ∷ [])
            (plus
              (minus (minus (times (var 1) (var 2)) (var 3))
                (minus (times (times (var 1) (var 0)) (var 4)) (var 5)))
              (plus (minus (var 3) (times (var 1) (var 2)))
                (times (times (var 1) (var 0)) (var 4))))
            (var 5) refl

    meets_short :
        (p s e m r k : N)
        → mul p (mul s (add (num 1) r)) ≡ add (add (mul s e) m) (sub (mul (mul s p) r) k)
        → add m (mul (sub e p) s) ≡ k
    meets_short p s e m r k h =
        ring_eq exact (p ∷ s ∷ e ∷ m ∷ r ∷ k ∷ [])
          (plus (var 3) (times (minus (var 2) (var 0)) (var 1)))
          (minus
            (plus (plus (times (var 1) (var 2)) (var 3)) (times (times (var 1) (var 0)) (var 4)))
            (times (var 0) (times (var 1) (plus one (var 4)))))
          refl
        ∙ ap (sub (add (add (mul s e) m) (mul (mul s p) r))) h
        ∙ ring_eq exact (p ∷ s ∷ e ∷ m ∷ r ∷ k ∷ [])
            (minus
              (plus (plus (times (var 1) (var 2)) (var 3)) (times (times (var 1) (var 0)) (var 4)))
              (plus (plus (times (var 1) (var 2)) (var 3))
                (minus (times (times (var 1) (var 0)) (var 4)) (var 5))))
            (var 5) refl

    solve_at :
        (t : Tier N) (tiers : List (Tier N)) (leverage : ℕ) (szi entry_px margin px : N)
        → is_zero (
            solve_below
              (gt szi (num 0))
              (abs szi)
              (rate_at (t ∷ tiers) leverage (mul (abs szi) px)))
          ≡ false
        → IsSolved (t ∷ tiers) leverage szi entry_px margin px
        → solve (t ∷ tiers) leverage szi entry_px margin (mul (abs szi) px) ≡ px
    unfolding solve
    solve_at t tiers leverage szi e m px below h = exact.div_lem _ _ px below h

    settled_price_stays :
        (i : ℕ) (t : Tier N) (tiers : List (Tier N)) (leverage : ℕ) (szi entry_px margin px : N)
        → is_zero (
            solve_below
              (gt szi (num 0))
              (abs szi)
              (rate_at (t ∷ tiers) leverage (mul (abs szi) px)))
          ≡ false
        → IsSolved (t ∷ tiers) leverage szi entry_px margin px
        → settle i (t ∷ tiers) leverage szi entry_px margin px ≡ px
    unfolding settle
    settled_price_stays zero t tiers leverage szi e m px below h = refl
    settled_price_stays (suc i) t tiers leverage szi e m px below h =
        elim (Bool-cases (gt px (num 0))) [
          | inl up ↦ rw (up, solve_at t tiers leverage szi e m px below h, order.lte_refl px) refl
          | inr down ↦ rw down refl
        ]

    equity_at_settled_price :
        (t : Tier N) (tiers : List (Tier N)) (leverage : ℕ) (szi entry_px margin px : N)
        → is_zero szi ≡ false
        → IsSolved (t ∷ tiers) leverage szi entry_px margin px
        → add margin (calculate_position_unrealized_pnl szi entry_px px)
          ≡ maintenance_margin_for_notional (t ∷ tiers) (mul (abs szi) px)
    unfolding solve_above solve_below deduction_at calculate_position_unrealized_pnl
    equity_at_settled_price t tiers leverage szi e m px nonzero h =
        elim (Bool-cases (lte szi (num 0))) [
          | inl down ↦ rw (nonzero, down) (meets_short px (abs szi) e m _ _ (rw down at h))
          | inr up ↦ rw (nonzero, up) (meets_long px (abs szi) e m _ _ (rw up at h))
        ]

    -- If the quotient of `solve` at a price of a position with margin tiers is exactly that price, then
    -- the loop that picks the tier again leaves the price as it is, however often it runs, and at that
    -- price the equity of the isolated position, its margin and its profit, is exactly the
    -- maintenance margin of its size, the amount below which the liquidation check trips. The
    -- arithmetic is exact, the size is not zero, nor is what `solve` divides by.
    pub settled_price_meets_margin :
        (i : ℕ) (t : Tier N) (tiers : List (Tier N)) (leverage : ℕ) (szi entry_px margin px : N)
        → is_zero szi ≡ false
        → is_zero (
            solve_below
              (gt szi (num 0))
              (abs szi)
              (rate_at (t ∷ tiers) leverage (mul (abs szi) px)))
          ≡ false
        → IsSolved (t ∷ tiers) leverage szi entry_px margin px
        → (settle i (t ∷ tiers) leverage szi entry_px margin px ≡ px)
          × (add margin (calculate_position_unrealized_pnl szi entry_px px)
              ≡ maintenance_margin_for_notional (t ∷ tiers) (mul (abs szi) px))
    settled_price_meets_margin i t tiers leverage szi e m px nonzero below h = (
      settled_price_stays i t tiers leverage szi e m px below h,
      equity_at_settled_price t tiers leverage szi e m px nonzero h,
    )
