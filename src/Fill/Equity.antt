-- ===== src/Fill/Equity.antt =====
-- A fill of src/worker/order-matcher.ts neither makes nor loses money but its fee.
use hy_paper.Prelude.{◌≡◌, refl, ◌∙◌, Bool, true, false, [], ◌∷◌, arith, Bool-cases, inl, inr}
use hy_paper.Decimal.{Decimal, num, add, sub, mul, abs, lte, is_zero, neg}
use hy_paper.Decimal.Order.{IsOrdered, sign-cases}
use hy_paper.Decimal.Exact.{IsExact}
use hy_paper.Decimal.Ring.{ring_eq, var, plus, minus, times, negated, nought}
use hy_paper.Decimal.Ordered.{abs-pos, abs-neg, min_left, min_right}
use hy_paper.Fill.{
  calculate_position_unrealized_pnl, new_szi, is_increasing, average_entry_px, new_entry_px,
  closed_pnl,
}

module _ {N : Type 0} ⦃d : Decimal N⦄ where
  -- The profit at a price does not change, once what the fill realises is counted.
  abbrev pub KeepsEquity : Bool → N → N → N → N → Type 0
  KeepsEquity is_buy fill_sz fill_px szi entry_px =
      add (closed_pnl is_buy fill_sz fill_px szi entry_px) (
        calculate_position_unrealized_pnl (new_szi is_buy fill_sz szi)
          (new_entry_px is_buy fill_sz fill_px szi entry_px) fill_px)
      ≡ calculate_position_unrealized_pnl szi entry_px fill_px

  -- The average entry price is a decimal, so it is found exactly.
  abbrev pub HasAverage : N → N → N → N → Type 0
  HasAverage fill_sz fill_px szi entry_px =
      mul (average_entry_px fill_sz fill_px szi entry_px) (add (abs szi) fill_sz)
      ≡ add (mul (abs szi) entry_px) (mul fill_sz fill_px)

  module _ (order : IsOrdered N) (exact : IsExact N) where
    open order use {lte_refl, lte_total}

    -- The profit of a signed size is linear in it.
    pub pnl_signed :
        (szi entry_px mark_px : N)
        → calculate_position_unrealized_pnl szi entry_px mark_px ≡ mul (sub mark_px entry_px) szi
    unfolding calculate_position_unrealized_pnl
    pnl_signed s e p = elim (sign-cases order s) [
      | inl z ↦
          rw (z, lte_refl (num 0))
            (ring_eq exact (e ∷ p ∷ []) nought (times (minus (var 1) (var 0)) nought) refl)
      | inr (inl (up, down)) ↦
          rw (up, calculate_position_unrealized_pnl, abs-pos order exact s (ground arith))
      | inr (inr (up, down)) ↦
          rw (up, down, calculate_position_unrealized_pnl, abs-neg order exact s (ground arith))
            (ring_eq exact (s ∷ e ∷ p ∷ []) (times (minus (var 1) (var 2)) (negated (var 0)))
              (times (minus (var 2) (var 1)) (var 0)) refl)
    ]

    abbrev Linear : Bool → N → N → N → N → Type 0
    Linear is_buy f p s e =
        add (closed_pnl is_buy f p s e)
          (mul (sub p (new_entry_px is_buy f p s e)) (new_szi is_buy f s))
        ≡ mul (sub p e) s

    opens : (is_buy : Bool) (f p s e : N) → s ≡ num 0 → Linear is_buy f p s e
    unfolding closed_pnl new_entry_px new_szi
    opens true f p s e z =
        rw (z, lte_refl (num 0))
          (ring_eq exact (f ∷ p ∷ e ∷ [])
            (plus nought (times (minus (var 1) (var 1)) (plus nought (var 0))))
            (times (minus (var 1) (var 2)) nought) refl)
    opens false f p s e z =
        rw (z, lte_refl (num 0))
          (ring_eq exact (f ∷ p ∷ e ∷ [])
            (plus nought (times (minus (var 1) (var 1)) (plus nought (negated (var 0)))))
            (times (minus (var 1) (var 2)) nought) refl)

    -- (p - a) (s + f) = (p - e) s where a (s + f) = s e + f p
    averaged :
        (a s f e p : N)
        → mul a (add s f) ≡ add (mul s e) (mul f p)
        → add (num 0) (mul (sub p a) (add s f)) ≡ mul (sub p e) s
    averaged a s f e p h =
        ring_eq exact (a ∷ s ∷ f ∷ p ∷ [])
          (plus nought (times (minus (var 3) (var 0)) (plus (var 1) (var 2))))
          (minus (times (var 3) (plus (var 1) (var 2))) (times (var 0) (plus (var 1) (var 2)))) refl
        ∙ rw h (
            ring_eq exact (s ∷ f ∷ e ∷ p ∷ [])
              (minus (times (var 3) (plus (var 0) (var 1)))
                (plus (times (var 0) (var 2)) (times (var 1) (var 3))))
              (times (minus (var 3) (var 2)) (var 0)) refl)

    -- the same for a short position, whose size is -s
    averaged_short :
        (a s f e p : N)
        → mul a (add (neg s) f) ≡ add (mul (neg s) e) (mul f p)
        → add (num 0) (mul (sub p a) (add s (neg f))) ≡ mul (sub p e) s
    averaged_short a s f e p h =
        ring_eq exact (a ∷ s ∷ f ∷ p ∷ [])
          (plus nought (times (minus (var 3) (var 0)) (plus (var 1) (negated (var 2)))))
          (plus (times (var 3) (plus (var 1) (negated (var 2))))
            (times (var 0) (plus (negated (var 1)) (var 2))))
          refl
        ∙ rw h (
            ring_eq exact (s ∷ f ∷ e ∷ p ∷ [])
              (plus (times (var 3) (plus (var 0) (negated (var 1))))
                (plus (times (negated (var 0)) (var 2)) (times (var 1) (var 3))))
              (times (minus (var 3) (var 2)) (var 0)) refl)

    grows_long :
        (f p s e : N)
        → lte s (num 0) ≡ false
        → lte (num 0) s ≡ true
        → HasAverage f p s e
        → Linear true f p s e
    unfolding closed_pnl new_entry_px new_szi
    grows_long f p s e up down h = rw up (
        averaged (average_entry_px f p s e) s f e p
          (rw (abs-pos order exact s (ground arith)) at h))

    grows_short :
        (f p s e : N)
        → lte s (num 0) ≡ true
        → lte (num 0) s ≡ false
        → HasAverage f p s e
        → Linear false f p s e
    unfolding closed_pnl new_entry_px new_szi
    grows_short f p s e up down h =
        rw (up, down)
          (averaged_short (average_entry_px f p s e) s f e p
            (rw (abs-neg order exact s (ground arith)) at h))

    reduces_long :
        (f p s e : N) → lte s (num 0) ≡ false → lte (num 0) s ≡ true → Linear false f p s e
    unfolding closed_pnl new_entry_px new_szi
    reduces_long f p s e up down = elim (Bool-cases (lte f s)) [
      | inl in_part ↦
          rw
            (
              up,
              down,
              abs-pos order exact s (ground arith),
              in_part,
              min_left order exact f s in_part,
            )
            (ring_eq exact (f ∷ p ∷ s ∷ e ∷ [])
              (plus (times (minus (var 1) (var 3)) (var 0))
                (times (minus (var 1) (var 3)) (plus (var 2) (negated (var 0)))))
              (times (minus (var 1) (var 3)) (var 2)) refl)
      | inr flips ↦
          rw
            (
              up,
              down,
              abs-pos order exact s (ground arith),
              flips,
              min_right order exact f s (lte_total f s flips),
            )
            (ring_eq exact (f ∷ p ∷ s ∷ e ∷ [])
              (plus (times (minus (var 1) (var 3)) (var 2))
                (times (minus (var 1) (var 1)) (plus (var 2) (negated (var 0)))))
              (times (minus (var 1) (var 3)) (var 2)) refl)
    ]

    reduces_short :
        (f p s e : N) → lte s (num 0) ≡ true → lte (num 0) s ≡ false → Linear true f p s e
    unfolding closed_pnl new_entry_px new_szi
    reduces_short f p s e up down = elim (Bool-cases (lte f (neg s))) [
      | inl in_part ↦
          rw
            (
              up,
              down,
              abs-neg order exact s (ground arith),
              in_part,
              min_left order exact f (neg s) in_part,
            )
            (ring_eq exact (f ∷ p ∷ s ∷ e ∷ [])
              (plus (times (minus (var 3) (var 1)) (var 0))
                (times (minus (var 1) (var 3)) (plus (var 2) (var 0))))
              (times (minus (var 1) (var 3)) (var 2)) refl)
      | inr flips ↦
          rw
            (
              up,
              down,
              abs-neg order exact s (ground arith),
              flips,
              min_right order exact f (neg s) (lte_total f (neg s) flips),
            )
            (ring_eq exact (f ∷ p ∷ s ∷ e ∷ [])
              (plus (times (minus (var 3) (var 1)) (negated (var 2)))
                (times (minus (var 1) (var 1)) (plus (var 2) (var 0))))
              (times (minus (var 1) (var 3)) (var 2)) refl)
    ]

    fill-Linear :
        (is_buy : Bool) (f p s e : N)
        → (is_increasing is_buy s ≡ true → is_zero s ≡ false → HasAverage f p s e)
        → Linear is_buy f p s e
    unfolding is_increasing
    fill-Linear is_buy f p s e h = elim (sign-cases order s) [
      | inl z ↦ opens is_buy f p s e z
      | inr (inl (up, down)) ↦ long is_buy up down h
      | inr (inr (up, down)) ↦ short is_buy up down h
    ]
      where
        long :
            (b : Bool)
            → lte s (num 0) ≡ false
            → lte (num 0) s ≡ true
            → (is_increasing b s ≡ true → is_zero s ≡ false → HasAverage f p s e)
            → Linear b f p s e
        long true up down k = grows_long f p s e up down (k (ground arith) (ground arith))
        long false up down k = reduces_long f p s e up down

        short :
            (b : Bool)
            → lte s (num 0) ≡ true
            → lte (num 0) s ≡ false
            → (is_increasing b s ≡ true → is_zero s ≡ false → HasAverage f p s e)
            → Linear b f p s e
        short true up down k = reduces_short f p s e up down
        short false up down k = grows_short f p s e up down (k (ground arith) (ground arith))

    -- Whether a fill opens, grows, reduces, closes or flips a position: what it realises and what the
    -- new position is worth at the fill price are together what the old position was worth there. Where
    -- it grows a position, the average entry price is supposed to be a decimal.
    pub fill-KeepsEquity :
        (is_buy : Bool) (fill_sz fill_px szi entry_px : N)
        → (is_increasing is_buy szi ≡ true
            → is_zero szi ≡ false
            → HasAverage fill_sz fill_px szi entry_px)
        → KeepsEquity is_buy fill_sz fill_px szi entry_px
    fill-KeepsEquity is_buy f p s e h =
        rw (pnl_signed s e p, pnl_signed (new_szi is_buy f s) (new_entry_px is_buy f p s e) p)
          (fill-Linear is_buy f p s e h)
