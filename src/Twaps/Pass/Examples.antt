-- ===== src/Twaps/Pass/Examples.antt =====
-- The TWAPs on test data: Ann sells 40 by TWAP number 1 over ten minutes, to reduce only, and holds nothing.
use hy_paper.Prelude.{◌≡◌, refl, true, false, none, some, [], ◌∷◌, if◌then◌else◌}
use hy_paper.Prelude.Int.{ℤ, pos, ◌+ℤ◌, ◌-ℤ◌, ◌*ℤ◌, div_ℤ}
use hy_paper.Prelude.Maps.{nat_keys, string_keys, pair_keys}
use hy_paper.Decimal.Integers.{integers}
use hy_paper.AssetMeta.{is_spot_asset, load_universe_entry}
use hy_paper.Store.{SameHoldings}
use hy_paper.Env.{mid_of}
use hy_paper.NextPosition.{current_szi}
use hy_paper.Intake.{IntakeEnv, IntakeState, resolve_asset_coin}
use hy_paper.Intake.Place.{would_fill}
use hy_paper.Twaps.{Twap, TwapState, running, create_twap_order, cancel_twap_order}
use hy_paper.Twaps.Pass.{
  TwapEnv, fmt_px5, slice_wire, twap_action, scheduled, match_twap, match_twaps,
}
use hy_paper.Twaps.Pass.Ticks.{IsSound}
use hy_paper.Twaps.Pass.Runs.{here, next, creates, ticks, cancels, no_twaps, reached-IsSound}
use hy_paper.Twaps.Pass.Pace.{Spaced, submitted, slices_keep_their_distance}
use hy_paper.Twaps.Pass.Unfilled.{unfilled_slice_is_counted}
use hy_paper.Samples.{sample_env, sample_market, sample_order, sample_position, sample_store}

abbrev intake_env : IntakeEnv ℤ
intake_env = record {
  env = record sample_env {
    market = record sample_market {
      meta = some (record { name = "BTC"; sz_decimals = 0; max_leverage = 40 } ∷ []);
    };
  };
  spot_meta = none;
}

abbrev twap_env : TwapEnv ℤ
twap_env = record { intake = intake_env; jitter = λ id. 7_000; to_precision = λ px. px }

abbrev state : IntakeState ℤ
state = record {
  store = sample_store (sample_position (pos 0) (pos 100)) (sample_order false 2 120);
  seq_oid = 7;
  cloids = λ k. none;
  user_orders = λ k. [];
}

abbrev twap : Twap ℤ
twap = record {
  twap_id = 1;
  user_id = "ann";
  asset = 0;
  coin = "BTC";
  is_buy = false;
  reduce_only = true;
  total_size = some (pos 40);
  filled_size = pos 0;
  start_time = some 1_000;
  end_time = some 601_000;
  minutes = 10;
  randomize = true;
  sz_decimals = some 0;
  status = running;
  last_submitted_at = none;
  next_slice_at = none;
}

abbrev twaps : TwapState ℤ
twaps = record (no_twaps state) {
  twaps = λ id. if nat_keys.beq id 1 then some twap else none;
  twaps_active = 1 ∷ [];
  seq_twap = 1;
}

abbrev created : TwapState ℤ
created =
    (create_twap_order intake_env "ann" 0 false (some (pos 40)) true 10 true (no_twaps state)).1

reached-IsSound_example : IsSound (match_twaps twap_env (cancel_twap_order 2_000 "ann" 1 created).1)
reached-IsSound_example = reached-IsSound state (
    next
      (next (next here (creates intake_env "ann" 0 false (some (pos 40)) true 10 true _))
        (cancels 2_000 "ann" 1 created))
      (ticks twap_env _))

slices_keep_their_distance_example :
    Spaced 15_000 0 601_000 (submitted 1 ((twap_env, state) ∷ (twap_env, state) ∷ []) twaps)
slices_keep_their_distance_example =
    slices_keep_their_distance 1 twap 601_000 ((twap_env, state) ∷ (twap_env, state) ∷ []) twaps
      refl refl

unfilled_slice_is_counted_example :
    ((match_twap twap_env 1 twaps).twaps 1
      ≡ some (scheduled twap_env 1 (record twap { filled_size = pos 2 })))
    × SameHoldings twaps.intake.store (match_twap twap_env 1 twaps).intake.store
unfolding current_szi resolve_asset_coin mid_of would_fill twap_action slice_wire fmt_px5 ◌+ℤ◌ ◌-ℤ◌
    ◌*ℤ◌ div_ℤ is_spot_asset load_universe_entry
unfilled_slice_is_counted_example =
    unfilled_slice_is_counted twap_env 1 twap twaps (slice_wire twap_env twap (pos 110) (pos 2))
      "BTC" (pos 110) (pos 2) refl refl refl refl refl refl refl refl refl
