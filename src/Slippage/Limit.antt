-- ===== src/Slippage/Limit.antt =====
-- The limit price in src/utils/slippage.ts.
use hy_paper.Prelude.{
  ◌≡◌, refl, ◌⊎◌, inl, inr, Bool, false, Option, none, some, List, [], ◌∷◌, arith, Bool-cases,
}
use hy_paper.Decimal.{Decimal, is_zero}
use hy_paper.Decimal.Order.{IsOrdered}
use hy_paper.Slippage.{
  Level, vwap, fallback, VwapResult, Totals, beyond, clamp, average, worst_px, compute_vwap,
}

module _ {N : Type 0} ⦃d : Decimal N⦄ where
  abbrev pub IsPriced : Option N → Bool → N → VwapResult N → Type 0
  IsPriced limit_px is_buy fallback_px r =
      ((r.source ≡ vwap) × (beyond limit_px is_buy r.fill_px ≡ false))
      ⊎ ((r.source ≡ fallback) × (r.fill_px ≡ fallback_px))

  module _ (laws : IsOrdered N) where
    open laws use {lte_refl}

    beyond-clamp :
        (limit_px : Option N) (is_buy : Bool) (px : N)
        → beyond limit_px is_buy (clamp limit_px is_buy px) ≡ false
    unfolding beyond clamp
    beyond-clamp none is_buy px = refl
    beyond-clamp (some l) is_buy px = ground (arith, lte_refl l)

    average-IsPriced :
        (limit_px : Option N) (is_buy : Bool) (target worst fb : N) (t : Totals N)
        → IsPriced limit_px is_buy fb (average limit_px is_buy target worst t fb)
    unfolding average
    average-IsPriced limit_px is_buy target worst fb t = elim (Bool-cases (is_zero t.filled)) [
      | inl e ↦ rw (e, average) (inr (refl, refl))
      | inr e ↦ rw (e, average) (inl (refl, beyond-clamp limit_px is_buy _))
    ]

    -- A price that comes from the book is within the limit: a buy pays no more, a sell takes no less.
    -- Any other price is the given fallback, unchanged.
    pub compute_vwap_limit :
        (levels : Option (List (Level N))) (sz fallback_px : N) (is_buy : Bool)
        (limit_px : Option N)
        → IsPriced limit_px is_buy fallback_px (compute_vwap levels sz is_buy limit_px fallback_px)
    unfolding compute_vwap
    compute_vwap_limit none sz fb is_buy limit_px = inr (refl, refl)
    compute_vwap_limit (some []) sz fb is_buy limit_px = inr (refl, refl)
    compute_vwap_limit (some (level ∷ levels)) sz fb is_buy limit_px =
        average-IsPriced limit_px is_buy sz (worst_px level levels) fb _
