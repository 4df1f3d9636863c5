-- ===== src/Liquidation/Holders/Examples.antt =====
-- A pass of src/engine/liquidation.ts over all accounts on test data: Ann bought 2 at 800, now at 110.
use hy_paper.Prelude.{ℕ, ◌≡◌, true, none, [], arith}
use hy_paper.Prelude.Int.{ℤ, pos}
use hy_paper.Prelude.Maps.{nat_keys, string_keys, pair_keys, contains}
use hy_paper.Decimal.Integers.{integers}
use hy_paper.AssetMeta.{scope_for_asset}
use hy_paper.Liquidation.{LiqEnv, LiqState}
use hy_paper.Liquidation.Closing.Listed.{IsListed}
use hy_paper.Liquidation.Holders.{check_and_liquidate_all}
use hy_paper.Liquidation.Holders.Listed.{liquidations_keep_sets-IsListed}
use hy_paper.Samples.{sample_env, sample_market, sample_order, sample_position, sample_store}

abbrev liq_env : LiqEnv ℤ
liq_env = record {
  env = sample_env;
  metas = λ scope. none;
  sz_decimals_for = λ asset. 2;
  has_vault_address = true;
}

abbrev state : LiqState ℤ
state = record {
  store = sample_store (sample_position (pos 2) (pos 800)) (sample_order true 2 50);
  seq_oid = 10;
  cooldowns = [];
  total_collected = pos 0;
}

scope-sample : (asset : ℕ) → scope_for_asset sample_market asset ≡ ""
unfolding scope_for_asset
scope-sample asset = ground arith

state-IsListed : IsListed sample_market state.store
unfolding contains
state-IsListed user scope asset = rw (scope-sample asset) (ground arith)

liquidations_keep_sets-IsListed_example :
    IsListed sample_market (check_and_liquidate_all liq_env state).store
liquidations_keep_sets-IsListed_example =
    liquidations_keep_sets-IsListed liq_env state state-IsListed
