-- ===== src/StopPlacement/Examples.antt =====
-- The placement of trailing stops on test data: a sell stop 5 below the best mark, seeded at 110.
use hy_paper.Prelude.{ℕ, false, none, some, [], ◌∷◌}
use hy_paper.Prelude.Int.{ℤ, pos}
use hy_paper.Prelude.Maps.{nat_keys, string_keys, pair_keys}
use hy_paper.Decimal.Integers.{integers, integers-IsOrdered}
use hy_paper.Intake.{IntakeState}
use hy_paper.StopPlacement.{by_px, TrailingStopWire, StopEnv, place_trailing_stop}
use hy_paper.StopPlacement.Outcome.{Ends, place_trailing_stop-Ends}
use hy_paper.Samples.{sample_env, sample_market, sample_order, sample_position, sample_store}

-- The feed has no mark; the fallback has one.
abbrev stop_env : StopEnv ℤ
stop_env = record {
  intake = record {
    env = record sample_env {
      market = record sample_market {
        meta = some (record { name = "BTC"; sz_decimals = 3; max_leverage = 40 } ∷ []);
      };
    };
    spot_meta = none;
  };
  refreshed = λ coin. record { mark_px = some (pos 110); mark_ts = some 990 };
}

abbrev state : IntakeState ℤ
state = record {
  store = sample_store (sample_position (pos 2) (pos 100)) (sample_order false 2 120);
  seq_oid = 9;
  cloids = λ k. none;
  user_orders = λ k. [];
}

abbrev sell_stop : ℕ → TrailingStopWire ℤ
sell_stop distance = record {
  asset = 0;
  is_buy = false;
  sz = some (pos 2);
  reduce_only = false;
  retracement = by_px (some (pos distance));
  activation_px = none;
}

place_trailing_stop-Ends_example :
    Ends stop_env "ann" (sell_stop 5) state (place_trailing_stop stop_env "ann" (sell_stop 5) state)
place_trailing_stop-Ends_example =
    place_trailing_stop-Ends stop_env "ann" (sell_stop 5) state integers-IsOrdered
