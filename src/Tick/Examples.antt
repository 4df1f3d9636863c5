-- ===== src/Tick/Examples.antt =====
-- A whole tick of src/worker/order-matcher.ts on test data: Ann holds 2, and an order of hers to buy 500 rests.
use hy_paper.Prelude.{ℕ, ◌≡◌, true, none, [], arith}
use hy_paper.Prelude.Int.{ℤ, pos}
use hy_paper.Prelude.Maps.{nat_keys, string_keys, pair_keys, contains}
use hy_paper.Decimal.Integers.{integers}
use hy_paper.AssetMeta.{scope_for_asset}
use hy_paper.Matcher.Settlement.{IsIndexed}
use hy_paper.Twaps.{TwapState}
use hy_paper.Twaps.Pass.{TwapEnv}
use hy_paper.Tick.{match_all}
use hy_paper.Tick.Indexed.{match_all_keeps_positions-IsIndexed}
use hy_paper.Samples.{sample_env, sample_market, sample_order, sample_position, sample_store}

abbrev twap_env : TwapEnv ℤ
twap_env = record {
  intake = record { env = sample_env; spot_meta = none };
  jitter = λ id. 0;
  to_precision = λ px. px;
}

abbrev twaps : TwapState ℤ
twaps = record {
  intake = record {
    store = sample_store (sample_position (pos 2) (pos 100)) (sample_order true 500 112);
    seq_oid = 7;
    cloids = λ k. none;
    user_orders = λ k. [];
  };
  twaps = λ id. none;
  twaps_active = [];
  user_twaps = λ user. [];
  seq_twap = 0;
  history = [];
  twap_events = [];
}

scope-sample : (asset : ℕ) → scope_for_asset sample_market asset ≡ ""
unfolding scope_for_asset
scope-sample asset = ground arith

store-IsIndexed : IsIndexed sample_market twaps.intake.store
unfolding contains
store-IsIndexed user asset = (rw (scope-sample asset) (ground arith), λ p h. ground arith)

match_all_keeps_positions-IsIndexed_example :
    IsIndexed sample_market (match_all twap_env twaps).intake.store
match_all_keeps_positions-IsIndexed_example =
    match_all_keeps_positions-IsIndexed twap_env twaps store-IsIndexed
