-- ===== src/Intake/Settings/Leverage.antt =====
-- A leverage that updateLeverage of src/engine/order.ts accepts never blocks an order.
use Prim.Native.String.{String}
use text.Mathlib.Text.{◌==◌ as str_eq}
use hy_paper.Prelude.{
  ℕ, ◌≤◌, ◌≡◌, refl, ◌∙◌, Bool, true, false, not, ◌&&◌, Option, none, some, List, inl, inr, arith,
  if◌then◌else◌, Bool-cases, Option-cases,
}
use hy_paper.Prelude.Maps.{nat_keys, string_keys, pair_keys, update, update_self}
use hy_paper.Decimal.{Decimal}
use hy_paper.Trailing.Hash.{show_bool}
use hy_paper.AssetMeta.{
  UniverseEntry, LeverageHash, Market, is_spot_asset, scope_for_asset, cached_max_leverage,
  get_leverage_setting,
}
use hy_paper.AssetMeta.Leverage.{stored_setting, cached_max_leverage_same}
use hy_paper.Store.{Store}
use hy_paper.Intake.{IntakeEnv}
use hy_paper.Intake.Place.{leverage_blocks}
use hy_paper.Intake.Place.Leverage.{allowed_open}
use hy_paper.Intake.Settings.{
  SettingError, refresh_meta, fetch_max_leverage, allowed_leverage, has_position, same_bool,
  update_leverage,
}

refresh_meta-user_lev :
    (fresh : Option (List UniverseEntry)) (scope : String) (m : Market)
    → (refresh_meta fresh scope m).user_lev ≡ m.user_lev
unfolding refresh_meta
refresh_meta-user_lev none scope m = refl
refresh_meta-user_lev (some universe) scope m = elim (Bool-cases (str_eq scope "")) [
  | inl e ↦ rw (e, refresh_meta) refl
  | inr e ↦ rw (e, refresh_meta) refl
]

-- Fetching keeps what users set, and answers the maximum of the market that it leaves.
fetch_lem :
    (fresh : Option (List UniverseEntry)) (asset : ℕ) (m : Market) (max : ℕ)
    → (fetch_max_leverage fresh asset m).0 ≡ some max
    → cached_max_leverage (fetch_max_leverage fresh asset m).1 asset ≡ some max
unfolding fetch_max_leverage
fetch_lem fresh asset m max h = elim (Bool-cases (is_spot_asset asset)) [
  | inl spot ↦
      let nothing : Option ℕ = none in
      let clash : nothing ≡ some max = rw (spot, fetch_max_leverage) at h in
      absurd (ground (arith, clash))
  | inr perp ↦ rw (perp, fetch_max_leverage) (rw (perp, fetch_max_leverage) at h)
]

fetch-user_lev :
    (fresh : Option (List UniverseEntry)) (asset : ℕ) (m : Market)
    → (fetch_max_leverage fresh asset m).1.user_lev ≡ m.user_lev
unfolding fetch_max_leverage
fetch-user_lev fresh asset m = elim (Bool-cases (is_spot_asset asset)) [
  | inl spot ↦ rw (spot, fetch_max_leverage) refl
  | inr perp ↦
      rw (perp, fetch_max_leverage) (refresh_meta-user_lev fresh (scope_for_asset m asset) m)
]

allowed_lem :
    (max : ℕ) (leverage : Option ℕ) (n : ℕ)
    → allowed_leverage max leverage ≡ some n
    → (leverage ≡ some n) × (1 ≤ n) × (n ≤ max)
unfolding allowed_leverage
allowed_lem max none n h = absurd (ground (arith, h))
allowed_lem max (some k) n h = ground (arith, h)

show_bool_read : (b : Bool) → (if str_eq (show_bool b) "false" then false else true) ≡ b
unfolding show_bool
show_bool_read true = refl
show_bool_read false = refl

module _ {N : Type 0} ⦃d : Decimal N⦄ where
  -- The intake on another market.
  abbrev pub on_market : IntakeEnv N → Market → IntakeEnv N
  on_market ie m = record ie { env = record ie.env { market = m } }

  -- What a change of the leverage may come to: a refusal, after which all settings are as they were; or the
  -- leverage that was asked for, between 1 and the maximum, which is then read back with its type, and blocks no
  -- order of the user on the asset.
  pub data LeverageOutcome (user : String) (asset : ℕ) (is_cross : Bool) (asked : Option ℕ)
      (s : Store N) (m : Market) : Option SettingError × Market → Type 0 where
    kept :
        {after : Market} (e : SettingError)
        → after.user_lev ≡ m.user_lev
        → LeverageOutcome user asset is_cross asked s m (some e, after)
    set_to :
        {after : Market} (n max : ℕ)
        → asked ≡ some n
        → 1 ≤ n
        → n ≤ max
        → cached_max_leverage after asset ≡ some max
        → get_leverage_setting after user asset ≡ record { leverage = n; is_cross = is_cross }
        → ((ie : IntakeEnv N) (is_buy : Bool)
            → leverage_blocks (on_market ie after) user asset is_buy s ≡ false)
        → LeverageOutcome user asset is_cross asked s m (none, after)

  accepted-LeverageOutcome :
      (user : String) (asset n max : ℕ) (is_cross : Bool) (asked : Option ℕ) (s : Store N)
      (m refreshed : Market)
      → (asked ≡ some n) × (1 ≤ n) × (n ≤ max)
      → cached_max_leverage refreshed asset ≡ some max
      → LeverageOutcome user asset is_cross asked s m (
        none,
        record refreshed {
          user_lev =
              update refreshed.user_lev
                (user, asset)
                (record { leverage = some n; is_cross = some (show_bool is_cross) });
        },
      )
  accepted-LeverageOutcome user asset n max is_cross asked s m refreshed (as_asked, low, high)
        known =
      let hash : LeverageHash = record {
        leverage = some n;
        is_cross = some (show_bool is_cross);
      } in
      let lev = update refreshed.user_lev (user, asset) hash in
      let after : Market = record refreshed { user_lev = lev } in
      let same = cached_max_leverage_same refreshed lev asset ∙ known in
      let stored : get_leverage_setting after user asset
          ≡ record { leverage = n; is_cross = is_cross } =
        stored_setting after user asset n (show_bool is_cross)
          (update_self refreshed.user_lev (user, asset) hash)
        ∙ rw (show_bool_read is_cross) refl in
      let within : (get_leverage_setting after user asset).leverage ≤ max = rw stored high in
      set_to n max as_asked low high same stored
        (λ ie is_buy. allowed_open (on_market ie after) user asset is_buy s max same within)

  -- Changing the leverage is refused, and all settings stay; or the leverage is the whole number that was asked for,
  -- between 1 and the maximum of the asset that HL answers with or that is stored: then it is read back with
  -- the type that was asked for, and no order of the user on the asset is refused for its leverage.
  pub update_leverage-LeverageOutcome :
      (fresh : Option (List UniverseEntry)) (user : String) (asset : ℕ) (is_cross : Bool)
      (asked : Option ℕ) (s : Store N) (m : Market)
      → LeverageOutcome user asset is_cross asked s m
          (update_leverage fresh user asset is_cross asked s m)
  unfolding update_leverage
  update_leverage-LeverageOutcome fresh user asset is_cross asked s m =
      let fetched = fetch_max_leverage fresh asset m in
      let same = fetch-user_lev fresh asset m in
      elim (Option-cases fetched.0) [
        | inl unknown ↦ rw (unknown, update_leverage) (kept _ same)
        | inr (max, known) ↦ elim (Option-cases (allowed_leverage max asked)) [
          | inl invalid ↦ rw (known, update_leverage, invalid) (kept _ same)
          | inr (n, valid) ↦
              let fixed =
                has_position (s.positions (user, asset))
                && not (same_bool (get_leverage_setting fetched.1 user asset).is_cross is_cross) in
              elim (Bool-cases fixed) [
                | inl e ↦ rw (known, update_leverage, valid, e) (kept _ same)
                | inr e ↦
                    rw (known, update_leverage, valid, e)
                      (accepted-LeverageOutcome user asset n max is_cross asked s m fetched.1
                        (allowed_lem max asked n valid) (fetch_lem fresh asset m max known))
              ]
        ]
      ]
