-- ===== src/NextPosition/Size.antt =====
-- Reduce-only orders in src/worker/order-matcher.ts: a fill brings the position nearer to zero.
use hy_paper.Prelude.{◌≡◌, Bool, true, false, some, arith}
use hy_paper.Decimal.{Decimal, num, sub, lte, abs, add, neg}
use hy_paper.Decimal.Order.{IsOrdered}
use hy_paper.Decimal.Exact.{IsExact}
use hy_paper.Decimal.Ring.{neg_zero}
use hy_paper.Decimal.Ordered.{abs-pos, abs-neg, abs_nonneg, add_mono_left, add-le→le-sub}
use hy_paper.Fill.{new_szi, is_increasing}
use hy_paper.Orders.{Order}
use hy_paper.NextPosition.{fill_size}

module _ {N : Type 0} ⦃d : Decimal N⦄ where
  -- From one size of a position to another it comes nearer to zero, or stays, on its side.
  abbrev pub Shrinks : N → N → Type 0
  Shrinks szi after =
      (lte (abs after) (abs szi) ≡ true)
      × (lte (num 0) szi ≡ true → lte (num 0) after ≡ true)
      × (lte szi (num 0) ≡ true → lte after (num 0) ≡ true)

  module _ (order : IsOrdered N) (exact : IsExact N) where
    open order use {lte_refl, lte_trans, lte_total, lte_antisymm, neg_mono, abs_lem}
    open exact use {add_zero, add_neg, sub_lem}

    -- What a reduce-only order may fill is at most the position, against its side.
    fill_size-bounds :
        (o : Order N) (szi f : N)
        → o.reduce_only ≡ true
        → lte (num 0) (sub o.sz o.filled_sz) ≡ true
        → fill_size o szi ≡ some f
        → (lte (num 0) f ≡ true) × (lte f (abs szi) ≡ true) × (is_increasing o.is_buy szi ≡ false)
    unfolding fill_size is_increasing
    fill_size-bounds o szi f r h e =
        ground (arith, lte_refl (abs szi), abs_nonneg order exact szi, lte_total szi (num 0))

    neg_nonpos : (f : N) → lte (num 0) f ≡ true → lte (neg f) (num 0) ≡ true
    neg_nonpos f h = rw (neg_zero exact) at (neg_mono (num 0) f h)

    Shrinks-long :
        (szi f : N)
        → lte szi (num 0) ≡ false
        → lte (num 0) f ≡ true
        → lte f szi ≡ true
        → Shrinks szi (add szi (neg f))
    Shrinks-long szi f up h k =
        let below : lte (add szi (neg f)) szi ≡ true =
          rw (add_zero szi) at (add_mono_left order exact (neg f) (num 0) szi (neg_nonpos f h)) in
        let above : lte (num 0) (add szi (neg f)) ≡ true =
          rw (sub_lem szi f) at (add-le→le-sub order exact f szi (num 0) (rw (add_zero f) k)) in
        ground (arith, abs_lem szi, abs_lem (add szi (neg f)), lte_total szi (num 0))

    Shrinks-short :
        (szi f : N)
        → lte (num 0) szi ≡ false
        → lte (num 0) f ≡ true
        → lte f (neg szi) ≡ true
        → Shrinks szi (add szi f)
    Shrinks-short szi f down h k =
        let above : lte szi (add szi f) ≡ true =
          rw (add_zero szi) at (add_mono_left order exact (num 0) f szi h) in
        let below : lte (add szi f) (num 0) ≡ true =
          rw (add_neg szi) at (add_mono_left order exact f (neg szi) szi k) in
        ground (
          arith,
          abs_lem szi,
          abs_lem (add szi f),
          neg_mono szi (add szi f),
          lte_antisymm (add szi f) (num 0),
          abs_nonneg order exact szi,
        )

    -- A fill of a reduce-only order that has something left to fill opens nothing, grows nothing and flips
    -- nothing: the position comes nearer to zero or stays where it is, on the side where it was.
    pub reduce_only-Shrinks :
        (o : Order N) (szi fill_sz : N)
        → o.reduce_only ≡ true
        → lte (num 0) (sub o.sz o.filled_sz) ≡ true
        → fill_size o szi ≡ some fill_sz
        → (is_increasing o.is_buy szi ≡ false) × Shrinks szi (new_szi o.is_buy fill_sz szi)
    unfolding is_increasing new_szi
    reduce_only-Shrinks o szi f r h e =
        let (nonneg, most, reduces) = fill_size-bounds o szi f r h e in
        (reduces, by_side o.is_buy nonneg most reduces)
      where
        by_side :
            (is_buy : Bool)
            → lte (num 0) f ≡ true
            → lte f (abs szi) ≡ true
            → is_increasing is_buy szi ≡ false
            → Shrinks szi (new_szi is_buy f szi)
        by_side true nonneg most reduces =
            let down : lte (num 0) szi ≡ false = ground (arith, lte_total (num 0) szi) in
            Shrinks-short szi f down nonneg (rw (abs-neg order exact szi (ground arith)) at most)
        by_side false nonneg most reduces =
            let up : lte szi (num 0) ≡ false = ground (arith, lte_total szi (num 0)) in
            Shrinks-long szi f up nonneg (rw (abs-pos order exact szi (ground arith)) at most)
