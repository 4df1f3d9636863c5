-- ===== src/Slippage/Bounds.antt =====
-- The fill price of src/utils/slippage.ts is an average of the prices of the book.
use hy_paper.Prelude.{
  ◌≡◌, refl, Bool, true, false, Option, none, some, List, [], ◌∷◌, if◌then◌else◌, arith, Bool-cases,
  inl, inr,
}
use hy_paper.Decimal.{Decimal, num, add, sub, mul, div, lte, gte, is_zero}
use hy_paper.Decimal.Order.{IsOrdered}
use hy_paper.Decimal.Exact.{IsExact}
use hy_paper.Decimal.Ring.{add-sub_cancel, ring_eq, var, times, nought}
use hy_paper.Decimal.Ordered.{add_mono_both}
use hy_paper.Slippage.{
  Level, Totals, beyond, clamp, take_level, walk, no_totals, fill_rest, worst_px, average,
  compute_vwap,
}

module _ {N : Type 0} ⦃d : Decimal N⦄ where
  abbrev pub HasSizes : List (Level N) → Type 0
  HasSizes [] = Unit {0}
  HasSizes (level ∷ levels) = (lte (num 0) level.sz ≡ true) × HasSizes levels

module _ {N : Type 0} ⦃d : Decimal N⦄ (lo hi : N) where
  abbrev pub Between : N → Type 0
  Between px = (lte lo px ≡ true) × (lte px hi ≡ true)

  abbrev pub HasPrices : List (Level N) → Type 0
  HasPrices [] = Unit {0}
  HasPrices (level ∷ levels) = Between level.px × HasPrices levels

  -- A limit that some price of the range meets.
  abbrev pub Meets : Option N → Bool → Type 0
  Meets none is_buy = Unit {0}
  Meets (some l) is_buy = (if is_buy then lte lo l else lte l hi) ≡ true

  pub record Averages (t : Totals N) : Type 0 where
    pub at_least : lte (mul lo t.filled) t.notional ≡ true
    pub at_most : lte t.notional (mul hi t.filled) ≡ true
    pub nonneg : lte (num 0) t.filled ≡ true

  module _ (order : IsOrdered N) (exact : IsExact N) where
    open order use {
      lte_refl, lte_trans, lte_antisymm, lte_total, add_nonneg, mul_mono, sub_mono, sub_self,
      div_mono,
    }
    open exact use {mul_comm, mul_add, add_zero, div_lem}

    clamp-Between :
        (limit_px : Option N) (is_buy : Bool) (px : N)
        → Meets limit_px is_buy
        → Between px
        → Between (clamp limit_px is_buy px)
    unfolding clamp
    clamp-Between none is_buy px m b = b
    clamp-Between (some l) is_buy px m b =
        ground (arith, lte_total px l, lte_total l px, lte_trans l px hi, lte_trans lo px l)

    Averages-add :
        (t : Totals N) (more px : N)
        → Averages t
        → lte (num 0) more ≡ true
        → Between px
        → Averages (record { notional = add t.notional (mul more px); filled = add t.filled more })
    Averages-add t more px a m b = record {
      at_least =
          rw (mul_add lo t.filled more, mul_comm more px)
            (add_mono_both order exact _ _ _ _ a.at_least (mul_mono lo px more m b.0));
      at_most =
          rw (mul_add hi t.filled more, mul_comm more px)
            (add_mono_both order exact _ _ _ _ a.at_most (mul_mono px hi more m b.1));
      nonneg = add_nonneg t.filled more a.nonneg m;
    }

    sub_nonneg : (a b : N) → lte a b ≡ true → lte (num 0) (sub b a) ≡ true
    sub_nonneg a b h = rw (sub_self a) at (sub_mono a b a h)

    take_level-Averages :
        (target : N) (level : Level N) (t : Totals N)
        → Averages t
        → lte t.filled target ≡ true
        → lte (num 0) level.sz ≡ true
        → Between level.px
        → Averages (take_level target level t)
    unfolding take_level
    take_level-Averages target level t a h s b =
        elim (Bool-cases (lte level.sz (sub target t.filled))) [
          | inl e ↦ rw e (Averages-add t level.sz level.px a s b)
          | inr e ↦ rw e (Averages-add t (sub target t.filled) level.px a (sub_nonneg _ _ h) b)
        ]

    walk-Averages :
        (limit_px : Option N) (is_buy : Bool) (target : N) (levels : List (Level N)) (t : Totals N)
        → HasSizes levels
        → HasPrices levels
        → Averages t
        → Averages (walk limit_px is_buy target levels t)
    unfolding walk
    walk-Averages limit_px is_buy target [] t s b a = a
    walk-Averages limit_px is_buy target (level ∷ levels) t s b a =
        elim (Bool-cases (gte t.filled target)) [
          | inl e ↦ rw e a
          | inr e ↦ rw e (elim (Bool-cases (beyond limit_px is_buy level.px)) [
            | inl f ↦ rw f a
            | inr f ↦ rw f (
                walk-Averages limit_px is_buy target levels (take_level target level t) s.1 b.1
                  (take_level-Averages target level t a (lte_total _ _ e) s.0 b.0))
          ])
        ]

    worst_px-Between :
        (level : Level N) (levels : List (Level N))
        → HasPrices (level ∷ levels)
        → Between (worst_px level levels)
    unfolding worst_px
    worst_px-Between level [] b = b.0
    worst_px-Between level (next ∷ levels) b = worst_px-Between next levels b.1

    fill_rest-Averages :
        (target px : N) (t : Totals N)
        → Averages t
        → Between px
        → is_zero t.filled ≡ false
        → Averages (fill_rest target px t) × (is_zero (fill_rest target px t).filled ≡ false)
    unfolding fill_rest
    fill_rest-Averages target px t a b z = elim (Bool-cases (lte target t.filled)) [
      | inl e ↦ rw e (a, z)
      | inr e ↦
          let up = lte_total _ _ e in
          let rest = Averages-add t (sub target t.filled) px a (sub_nonneg _ _ up) b in
          rw e (
            rw (add-sub_cancel exact t.filled target) at rest,
            ground (arith, lte_trans target (num 0) t.filled),
          )
    ]

    div-Between :
        (t : Totals N) → Averages t → is_zero t.filled ≡ false → Between (div t.notional t.filled)
    div-Between t a z = (
      rw (div_lem (mul lo t.filled) t.filled lo z refl) at
          (div_mono (mul lo t.filled) t.notional t.filled a.nonneg a.at_least),
      rw (div_lem (mul hi t.filled) t.filled hi z refl) at
          (div_mono t.notional (mul hi t.filled) t.filled a.nonneg a.at_most),
    )

    average-Between :
        (limit_px : Option N) (is_buy : Bool) (target worst fb : N) (t : Totals N)
        → Meets limit_px is_buy
        → Between worst
        → Between fb
        → Averages t
        → Between (average limit_px is_buy target worst t fb).fill_px
    unfolding average
    average-Between limit_px is_buy target worst fb t m w f a =
        elim (Bool-cases (is_zero t.filled)) [
          | inl e ↦ rw (e, average) f
          | inr e ↦
              let full =
                fill_rest-Averages target (clamp limit_px is_buy worst) t a
                  (clamp-Between limit_px is_buy worst m w) e in
              rw (e, average) (clamp-Between limit_px is_buy _ m (div-Between _ full.0 full.1))
        ]

    mul_zero : (a : N) → mul a (num 0) ≡ num 0
    mul_zero a = ring_eq exact (a ∷ []) (times (var 0) nought) nought refl

    no_totals-Averages : Averages no_totals
    unfolding no_totals
    no_totals-Averages = record {
      at_least = rw (mul_zero lo) (lte_refl (num 0));
      at_most = rw (mul_zero hi) (lte_refl (num 0));
      nonneg = lte_refl (num 0);
    }

    -- Where every level of the book has a price from `lo` to `hi` and a size that is not negative, where the
    -- fallback lies from `lo` to `hi`, and where the limit of a buy, if it has one, is at least `lo` and that
    -- of a sell at most `hi`: the fill price lies from `lo` to `hi`, with and without a limit, with depth
    -- to spare or too little. The arithmetic is exact.
    pub compute_vwap-Between :
        (levels : List (Level N)) (sz fallback_px : N) (is_buy : Bool) (limit_px : Option N)
        → HasSizes levels
        → HasPrices levels
        → Meets limit_px is_buy
        → Between fallback_px
        → Between (compute_vwap (some levels) sz is_buy limit_px fallback_px).fill_px
    unfolding compute_vwap
    compute_vwap-Between [] sz fb is_buy limit_px s b m f = f
    compute_vwap-Between (level ∷ levels) sz fb is_buy limit_px s b m f =
        average-Between limit_px is_buy sz (worst_px level levels) fb
          (walk limit_px is_buy sz (level ∷ levels) no_totals) m (worst_px-Between level levels b) f
          (walk-Averages limit_px is_buy sz (level ∷ levels) no_totals s b no_totals-Averages)
