-- ===== src/Liquidation/Examples.antt =====
-- A backstop of src/engine/liquidation.ts on test data: 2 bought at 800, now at 110.
use hy_paper.Prelude.{◌≡◌, refl, true, some, none, [], ◌∷◌}
use hy_paper.Prelude.Int.{ℤ, pos, ◌+ℤ◌, ◌-ℤ◌, ◌*ℤ◌, div_ℤ}
use hy_paper.Prelude.Maps.{nat_keys, string_keys, pair_keys}
use hy_paper.Decimal.{sub}
use hy_paper.Decimal.Integers.{integers, integers-IsOrdered, integers-IsExact}
use hy_paper.MarkFeed.{get_fresh_mark}
use hy_paper.AssetMeta.{get_leverage_setting}
use hy_paper.Env.{mid_of}
use hy_paper.MarginTiers.{get_margin_tiers_for_coin, maintenance_margin_for_notional, flat_tier}
use hy_paper.Store.{balance_of}
use hy_paper.Fill.{calculate_position_unrealized_pnl}
use hy_paper.Liquidation.{PositionView, LiqEnv, LiqState, assess_isolated, load_position, view_of}
use hy_paper.Liquidation.Closing.{run_liquidation}
use hy_paper.Liquidation.Outcome.{isolated_backstop_costs_margin}
use hy_paper.Samples.{sample_env, sample_market, sample_order, sample_position, sample_store}

abbrev liq_env : LiqEnv ℤ
liq_env = record {
  env = sample_env;
  metas = λ scope. none;
  sz_decimals_for = λ asset. 2;
  has_vault_address = true;
}

abbrev state : LiqState ℤ
state = record {
  store = sample_store (sample_position (pos 2) (pos 800)) (sample_order true 2 50);
  seq_oid = 10;
  cooldowns = [];
  total_collected = pos 0;
}

-- The same with isolated margin.
abbrev isolated_env : LiqEnv ℤ
isolated_env =
    let m = record sample_market {
      user_lev = λ k. record { leverage = some 10; is_cross = some "false" };
    } in
    record liq_env { env = record sample_env { market = m } }

abbrev view : PositionView ℤ
view = view_of isolated_env "ann" "" 0 (sample_position (pos 2) (pos 800)) (pos 110)

isolated_backstop_costs_margin_example :
    balance_of
      (run_liquidation isolated_env "ann" "" (assess_isolated view) (view ∷ []) state).store
      ("ann", "")
    ≡ sub (balance_of state.store ("ann", "")) view.isolated_margin
unfolding load_position assess_isolated view_of balance_of get_fresh_mark get_leverage_setting
    mid_of get_margin_tiers_for_coin maintenance_margin_for_notional flat_tier
    calculate_position_unrealized_pnl ◌+ℤ◌ ◌-ℤ◌ ◌*ℤ◌ div_ℤ
isolated_backstop_costs_margin_example =
    isolated_backstop_costs_margin integers-IsOrdered integers-IsExact isolated_env "ann" "" 0 state
      view ("ann", "") refl refl
