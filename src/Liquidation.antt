-- ===== src/Liquidation.antt =====
-- src/engine/liquidation.ts: when an account is liquidated.
pub mod Closing
pub mod Scan
pub mod Holders
pub mod Outcome
mod Examples
use Prim.Native.String.{String}
use Prim.Native.Nat.{max as max_ℕ}
use hy_paper.Prelude.{
  ℕ, suc, ◌*◌, Bool, true, false, not, ◌&&◌, Option, none, some, List, [], ◌∷◌, ◌==◌, if◌then◌else◌,
}
use hy_paper.Prelude.Maps.{nat_keys, string_keys, pair_keys, contains, srem, sadd, update}
use hy_paper.Decimal.{
  Decimal, num, add, sub, mul, div, abs, gt, lt, is_zero, neg, round_to_decimals,
}
use hy_paper.Fill.{calculate_position_unrealized_pnl}
use hy_paper.AssetMeta.{get_leverage_setting}
use hy_paper.MarkFeed.{get_fresh_mark}
use hy_paper.MarginTiers.{
  Tier, Meta, get_margin_tiers_for_coin, flat_tier, maintenance_margin_for_notional,
}
use hy_paper.Slippage.{compute_vwap}
use hy_paper.Orders.{PaperFill, Position}
use hy_paper.Store.{Store, balance_of}
use hy_paper.Env.{Env, mid_of}
use hy_paper.Matcher.{write_balance, credit_nonzero, debit_nonzero}
use hy_paper.Ticks.{book_side}

pub data Method : Type 0 where
  market backstop : Method

pub record PositionView (N : Type 0) : Type 0 where
  pub asset : ℕ
  pub coin : String
  pub szi : N
  pub entry_px : N
  pub px : N
  pub leverage : ℕ
  pub is_cross : Bool
  pub notional : N
  pub pnl : N
  pub maintenance_margin : N
  pub isolated_margin : N
  pub raw : Position N

pub record Assessment (N : Type 0) : Type 0 where
  pub should_liquidate : Bool
  pub equity : N
  pub maintenance_margin : N
  pub method : Method
  pub targets : List (PositionView N)

-- What a liquidation reads besides a tick: the metadata of each dex, the size decimals of an asset, and
-- whether LIQUIDATOR_VAULT_ADDRESS is set.
pub record LiqEnv (N : Type 0) : Type 0 where
  pub env : Env N
  pub metas : String → Option (Meta N)
  pub sz_decimals_for : ℕ → ℕ
  pub has_vault_address : Bool

-- The state of a liquidation: besides the store, the numbers of orders, the cooldowns that
-- are alive (by user, dex and asset + 1, or 0 for the cross account), and `totalCollected` of the vault.
pub record LiqState (N : Type 0) : Type 0 where
  pub store : Store N
  pub seq_oid : ℕ
  pub cooldowns : List (String × (String × ℕ))
  pub total_collected : N

-- `PlannedClose`, without the order, which is only announced.
pub record PlannedClose (N : Type 0) : Type 0 where
  pub p : PositionView N
  pub fill : PaperFill N
  pub remaining : N

pub is_empty {ℓ} : {A : Type ℓ} → List A → Bool
is_empty [] = true
is_empty (_ ∷ _) = false

module _ {N : Type 0} ⦃d : Decimal N⦄ where
  pub isolated_margin_of : Position N → ℕ → N
  isolated_margin_of pos leverage =
      let alloc : N = elim pos.margin_alloc [
        | some a ↦ a
        | none ↦ div (mul (abs pos.szi) pos.entry_px) (num leverage)
      ] in
      add alloc (elim pos.raw_usd [ some r ↦ r | none ↦ num 0 ])

  -- A fresh mark, or else the mid.
  pub price_for : Env N → String → Option N
  price_for env coin = elim (get_fresh_mark (env.ctx coin) env.now) [
    | some mark ↦ some mark
    | none ↦ mid_of coin env.mids
  ]

  -- The fallback rate, 1 / (2 * leverage).
  pub maintenance_margin_rate : ℕ → N
  maintenance_margin_rate leverage = div (num 1) (num (max_ℕ 1 leverage * 2))

  pub compute_maintenance_margin : N → N → ℕ → List (Tier N) → N
  unfolding maintenance_margin_rate
  compute_maintenance_margin szi mark_px leverage [] =
      mul (mul (abs szi) mark_px) (maintenance_margin_rate leverage)
  compute_maintenance_margin szi mark_px leverage (t ∷ tiers) =
      maintenance_margin_for_notional (t ∷ tiers) (mul (abs szi) mark_px)

  pub view_of : LiqEnv N → String → String → ℕ → Position N → N → PositionView N
  unfolding compute_maintenance_margin isolated_margin_of
  view_of le user scope asset raw px =
      let setting = get_leverage_setting le.env.market user asset in
      let tiers : List (Tier N) = elim (get_margin_tiers_for_coin (le.metas scope) raw.coin) [
        | some tiers ↦ tiers
        | none ↦ flat_tier setting.leverage
      ] in
      record {
        asset = asset;
        coin = raw.coin;
        szi = raw.szi;
        entry_px = raw.entry_px;
        px = px;
        leverage = setting.leverage;
        is_cross = setting.is_cross;
        notional = mul (abs raw.szi) px;
        pnl = calculate_position_unrealized_pnl raw.szi raw.entry_px px;
        maintenance_margin = compute_maintenance_margin raw.szi px setting.leverage tiers;
        isolated_margin =
            if setting.is_cross then num 0 else isolated_margin_of raw setting.leverage;
        raw = raw;
      }

  -- The body of the loop of `loadPositions`: none, where it continues.
  pub load_position : LiqEnv N → String → String → ℕ → Store N → Option (PositionView N)
  unfolding price_for view_of
  load_position le user scope asset s = elim (s.positions (user, asset)) [
    | none ↦ none
    | some raw ↦ if is_zero raw.szi then none else elim (price_for le.env raw.coin) [
      | none ↦ none
      | some px ↦ some (view_of le user scope asset raw px)
    ]
  ]

  pub load_each : LiqEnv N → String → String → List ℕ → Store N → List (PositionView N)
  unfolding load_position
  load_each le user scope [] s = []
  load_each le user scope (asset ∷ assets) s =
      let rest = load_each le user scope assets s in
      elim (load_position le user scope asset s) [ none ↦ rest | some p ↦ p ∷ rest ]

  pub load_positions : LiqEnv N → String → String → Store N → List (PositionView N)
  unfolding load_each
  load_positions le user scope s = load_each le user scope (s.position_assets (user, scope)) s

  -- The loop of `crossAccountValue`.
  pub cross_account_value : N → List (PositionView N) → N
  cross_account_value v [] = v
  cross_account_value v (p ∷ ps) =
      cross_account_value (if p.is_cross then add v p.pnl else sub v p.isolated_margin) ps

  pub backstop_fraction : N
  backstop_fraction = div (num 2) (num 3)

  pub assess : N → N → List (PositionView N) → Assessment N
  unfolding backstop_fraction is_empty
  assess equity mm targets = record {
    should_liquidate = not (is_empty targets) && lt equity mm;
    equity = equity;
    maintenance_margin = mm;
    method = if lt equity (mul mm backstop_fraction) then backstop else market;
    targets = targets;
  }

  pub assess_isolated : PositionView N → Assessment N
  unfolding assess
  assess_isolated p = assess (add p.isolated_margin p.pnl) p.maintenance_margin (p ∷ [])

  pub cross_only : List (PositionView N) → List (PositionView N)
  cross_only [] = []
  cross_only (p ∷ ps) = let rest = cross_only ps in if p.is_cross then p ∷ rest else rest

  pub total_maintenance : N → List (PositionView N) → N
  total_maintenance mm [] = mm
  total_maintenance mm (p ∷ ps) = total_maintenance (add mm p.maintenance_margin) ps

  pub assess_cross : N → List (PositionView N) → Assessment N
  unfolding assess cross_account_value cross_only total_maintenance
  assess_cross balance positions =
      let cross = cross_only positions in
      assess (cross_account_value balance positions) (total_maintenance (num 0) cross) cross
