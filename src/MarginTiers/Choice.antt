-- ===== src/MarginTiers/Choice.antt =====
-- Which tier src/engine/marginTiers.ts takes for a notional size.
use hy_paper.Prelude.{
  ℕ, zero, suc, Option, none, ◌≡◌, refl, some, List, [], ◌∷◌, true, false, Bool-cases, inl, inr,
  if◌then◌else◌,
}
use hy_paper.Decimal.{Decimal, num, gte, gt}
use hy_paper.MarginTiers.{
  Tier, tier_from, tier_for_notional, maintenance_margin_for_notional, raw_margin,
}

module _ {N : Type 0} ⦃d : Decimal N⦄ where
  -- The tier after a number of steps.
  unfoldable pub tier_at : Tier N → List (Tier N) → ℕ → Option (Tier N)
  tier_at first tiers zero = some first
  tier_at first [] (suc i) = none
  tier_at first (t ∷ tiers) (suc i) = tier_at t tiers i

  -- A tier with its place in the list: its bound is reached, and that of the tier after it is not.
  abbrev pub IsTierOf : Tier N → List (Tier N) → N → Tier N × ℕ → Type 0
  IsTierOf first tiers notional chosen =
      (tier_at first tiers chosen.1 ≡ some chosen.0)
      × (gte notional chosen.0.lower_bound ≡ true)
      × ((above : Tier N)
          → tier_at first tiers (suc chosen.1) ≡ some above
          → gte notional above.lower_bound ≡ false)

  tier_from-IsTierOf :
      (first : Tier N) (tiers : List (Tier N)) (notional : N)
      → gte notional first.lower_bound ≡ true
      → IsTierOf first tiers notional (tier_from first tiers notional)
  unfolding tier_from tier_at
  tier_from-IsTierOf first [] notional h = (refl, h, λ above k. cc)
  tier_from-IsTierOf first (t ∷ tiers) notional h = elim (Bool-cases (gte notional t.lower_bound)) [
    | inl reached ↦ rw reached (tier_from-IsTierOf t tiers notional reached)
    | inr stops ↦ rw stops (refl, h, λ above k. let p : t ≡ above = cc in rw p at stops)
  ]

  -- A notional size that reaches the first tier gets the tier whose bound it reaches while it does not
  -- reach the next one's, and the margin that this tier asks, or nothing where that is below zero.
  pub margin_of_its_tier :
      (first : Tier N) (tiers : List (Tier N)) (notional : N)
      → gte notional first.lower_bound ≡ true
      → let chosen = tier_for_notional first tiers notional in
        let raw = raw_margin first tiers chosen.0 chosen.1 notional in
        IsTierOf first tiers notional chosen
        × (maintenance_margin_for_notional (first ∷ tiers) notional
            ≡ (if gt raw (num 0) then raw else num 0))
  unfolding tier_for_notional maintenance_margin_for_notional
  margin_of_its_tier first tiers notional h = rw h (tier_from-IsTierOf first tiers notional h, refl)
