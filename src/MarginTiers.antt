-- ===== src/MarginTiers.antt =====
-- src/engine/marginTiers.ts: the maintenance margin of a notional size, by tiers.
pub mod Choice
use Prim.Native.String.{String}
use text.Mathlib.Text.{◌==◌ as str_eq}
use hy_paper.Prelude.{ℕ, zero, suc, Bool, Option, none, some, List, [], ◌∷◌, ◌==◌, if◌then◌else◌}
use hy_paper.Decimal.{Decimal, num, div, mul, add, sub, gt, gte}

pub record Tier (N : Type 0) : Type 0 where
  pub lower_bound : N
  pub max_leverage : ℕ

-- What of `HlMeta` this module reads.
pub record MetaAsset : Type 0 where
  pub name : String
  pub max_leverage : ℕ
  pub margin_table_id : Option ℕ

pub record Meta (N : Type 0) : Type 0 where
  pub universe : List MetaAsset
  pub margin_tables : Option (List (ℕ × List (Tier N)))

pub find_asset : String → List MetaAsset → Option MetaAsset
find_asset coin [] = none
find_asset coin (a ∷ universe) =
    let rest = find_asset coin universe in if str_eq a.name coin then some a else rest

module _ {N : Type 0} where
  pub find_table : ℕ → List (ℕ × List (Tier N)) → Option (List (Tier N))
  find_table id [] = none
  find_table id ((k, tiers) ∷ tables) =
      let rest = find_table id tables in if k == id then some tiers else rest

  -- The table that an asset names, if it is there.
  pub table_of : Option ℕ → Option (List (ℕ × List (Tier N))) → Option (List (Tier N))
  unfolding find_table
  table_of (some id) (some tables) = find_table id tables
  table_of _ _ = none

module _ {N : Type 0} ⦃d : Decimal N⦄ where
  unfoldable pub flat_tier : ℕ → List (Tier N)
  flat_tier leverage = record { lower_bound = num 0; max_leverage = leverage } ∷ []

  unfoldable pub get_margin_tiers_for_coin : Option (Meta N) → String → Option (List (Tier N))
  unfolding find_asset table_of flat_tier
  get_margin_tiers_for_coin none coin = none
  get_margin_tiers_for_coin (some meta) coin = elim (find_asset coin meta.universe) [
    | none ↦ none
    | some asset ↦ elim (table_of asset.margin_table_id meta.margin_tables) [
      | some tiers ↦ some tiers
      | none ↦ some (flat_tier asset.max_leverage)
    ]
  ]

  -- The last tier reached from `chosen` on, with how many were passed: a loop that breaks.
  unfoldable pub tier_from : Tier N → List (Tier N) → N → Tier N × ℕ
  tier_from chosen [] notional = (chosen, 0)
  tier_from chosen (t ∷ tiers) notional =
      let rest = tier_from t tiers notional in
      if gte notional t.lower_bound then (rest.0, suc rest.1) else (chosen, 0)

  -- `tierForNotional` on a list that begins with `first`: below its bound, the first is chosen too.
  unfoldable pub tier_for_notional : Tier N → List (Tier N) → N → Tier N × ℕ
  unfolding tier_from
  tier_for_notional first tiers notional =
      if gte notional first.lower_bound then tier_from first tiers notional else (first, 0)

  unfoldable pub rate_for_tier : Tier N → N
  rate_for_tier tier = div (div (num 1) (num tier.max_leverage)) (num 2)

  unfoldable pub maintenance_margin_rate_for_notional : Tier N → List (Tier N) → N → N
  unfolding tier_for_notional rate_for_tier
  maintenance_margin_rate_for_notional first tiers notional =
      rate_for_tier (tier_for_notional first tiers notional).0

  -- The loop of the deduction, over the tiers after `prev` up to an index.
  unfoldable pub deduct : N → Tier N → List (Tier N) → ℕ → N
  unfolding rate_for_tier
  deduct acc prev tiers zero = acc
  deduct acc prev [] (suc i) = acc
  deduct acc prev (cur ∷ tiers) (suc i) =
      deduct (add acc (mul cur.lower_bound (sub (rate_for_tier cur) (rate_for_tier prev)))) cur
        tiers i

  -- What a tier asks of a notional size.
  unfoldable pub raw_margin : Tier N → List (Tier N) → Tier N → ℕ → N → N
  unfolding deduct rate_for_tier
  raw_margin first tiers tier index notional =
      sub (mul notional (rate_for_tier tier)) (deduct (num 0) first tiers index)

  unfoldable pub maintenance_margin_for_notional : List (Tier N) → N → N
  unfolding tier_for_notional raw_margin
  maintenance_margin_for_notional [] notional = num 0
  maintenance_margin_for_notional (first ∷ tiers) notional =
      let chosen = tier_for_notional first tiers notional in
      let raw = raw_margin first tiers chosen.0 chosen.1 notional in
      if gt raw (num 0) then raw else num 0
