-- ===== src/Intake/Settings.antt =====
-- src/engine/order.ts, updateLeverage, updateIsolatedMargin and scheduleCancel, with fetchMaxLeverage of
-- src/engine/assetMeta.ts: what a user sets.
pub mod Leverage
use Prim.Native.String.{String}
use text.Mathlib.Text.{◌==◌ as str_eq}
use hy_paper.Prelude.{
  ℕ, ◌+◌, Bool, true, false, not, ◌&&◌, ◌||◌, Option, none, some, List, if◌then◌else◌, ltb,
}
use hy_paper.Prelude.Maps.{nat_keys, string_keys, pair_keys, update}
use hy_paper.Decimal.{Decimal, num, add, sub, div, neg, abs, is_zero}
use hy_paper.Trailing.Hash.{show_bool}
use hy_paper.AssetMeta.{
  UniverseEntry, LeverageHash, Market, is_spot_asset, scope_for_asset, cached_max_leverage,
  get_leverage_setting,
}
use hy_paper.Orders.{Position}
use hy_paper.Store.{Store, account_update, emit}

pub data SettingError : Type 0 where
  no_such_asset leverage_invalid type_is_fixed no_isolated_position too_soon : SettingError

-- The universe that HL answers with replaces the copy; none is a failure, and leaves it.
pub refresh_meta : Option (List UniverseEntry) → String → Market → Market
unfolding update
refresh_meta none scope m = m
refresh_meta (some universe) scope m =
    if str_eq scope ""
    then record m { meta = some universe }
    else record m { meta_dex = update m.meta_dex scope (some universe) }

-- `fetchMaxLeverage`, with what HL answers.
pub fetch_max_leverage : Option (List UniverseEntry) → ℕ → Market → Option ℕ × Market
unfolding refresh_meta
fetch_max_leverage fresh asset m =
    if is_spot_asset asset
    then (none, m)
    else let refreshed = refresh_meta fresh (scope_for_asset m asset) m in
      (cached_max_leverage refreshed asset, refreshed)

-- A whole number between 1 and the maximum.
pub allowed_leverage : ℕ → Option ℕ → Option ℕ
allowed_leverage max none = none
allowed_leverage max (some n) = if ltb n 1 || ltb max n then none else some n

same_bool : Bool → Bool → Bool
same_bool true b = b
same_bool false b = not b

module _ {N : Type 0} ⦃d : Decimal N⦄ where
  -- Whether the user has a position that is not zero.
  pub has_position : Option (Position N) → Bool
  has_position none = false
  has_position (some p) = not (is_zero p.szi)

  -- `updateLeverage`. A leverage that is no natural number is none.
  pub update_leverage :
      Option (List UniverseEntry)
      → String
      → ℕ
      → Bool
      → Option ℕ
      → Store N
      → Market
      → Option SettingError × Market
  unfolding fetch_max_leverage allowed_leverage has_position same_bool update
  update_leverage fresh user asset is_cross leverage s m =
      let (max, refreshed) = fetch_max_leverage fresh asset m in
      let current = get_leverage_setting refreshed user asset in
      elim max [
        | none ↦ (some no_such_asset, refreshed)
        | some max ↦ elim (allowed_leverage max leverage) [
          | none ↦ (some leverage_invalid, refreshed)
          | some n ↦
              if has_position (s.positions (user, asset))
                && not (same_bool current.is_cross is_cross)
              then (some type_is_fixed, refreshed)
              else (
                none,
                record refreshed {
                  user_lev =
                      update refreshed.user_lev (user, asset)
                        (record { leverage = some n; is_cross = some (show_bool is_cross) });
                },
              )
        ]
      ]

  -- The change of `updateIsolatedMarginLocked`, from millionths.
  pub margin_change : Bool → N → N
  margin_change is_add ntli =
      let magnitude = div (abs ntli) (num 1_000_000) in
      d.places_half_up (if is_add then magnitude else neg magnitude) 6

  pub or_nothing : Option N → N
  or_nothing none = num 0
  or_nothing (some v) = v

  -- `updateIsolatedMarginLocked`
  pub update_isolated_margin : String → ℕ → Bool → N → Store N → Option SettingError × Store N
  unfolding margin_change or_nothing update emit
  update_isolated_margin user asset is_add ntli s = elim (s.positions (user, asset)) [
    | none ↦ (some no_isolated_position, s)
    | some p ↦
        let updated = add (or_nothing p.raw_usd) (margin_change is_add ntli) in
        let written : Store N = record s {
          positions =
              update s.positions (user, asset)
                (some (record p { raw_usd = some (d.places_half_up updated 6) }));
        } in
        (none, emit (account_update user) written)
  ]

-- `scheduleCancel`, on the keys `user:<user>:schedule_cancel`.
pub schedule_cancel :
    ℕ → String → Option ℕ → (String → Option ℕ) → Option SettingError × (String → Option ℕ)
unfolding update
schedule_cancel now user none keys = (none, update keys user none)
schedule_cancel now user (some time) keys =
    if ltb time (now + 5_000) then (some too_soon, keys) else (none, update keys user (some time))
