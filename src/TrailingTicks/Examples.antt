-- ===== src/TrailingTicks/Examples.antt =====
-- Trailing stops of src/worker/order-matcher.ts on test data.
use hy_paper.Prelude.{ℕ, ◌≡◌, refl, true, false, some, [], ◌∷◌}
use hy_paper.Prelude.Int.{ℤ, pos, ◌+ℤ◌, ◌-ℤ◌, ◌*ℤ◌, div_ℤ}
use hy_paper.Prelude.Maps.{nat_keys, string_keys, pair_keys}
use hy_paper.Decimal.Integers.{integers, integers-IsOrdered, integers-IsExact}
use hy_paper.Fill.{calculate_position_unrealized_pnl}
use hy_paper.AssetMeta.{get_leverage_setting, scope_for_asset}
use hy_paper.MarkFeed.{get_fresh_mark}
use hy_paper.Decimal.{lte, min}
use hy_paper.Orders.{Order}
use hy_paper.Store.{Store, set_order, balance_of}
use hy_paper.Orphans.{persist_trailing_evaluation}
use hy_paper.Env.{Env, mid_of}
use hy_paper.NextPosition.{current_szi}
use hy_paper.Margin.{available_margin, max_affordable_order_size, check_margin_for_order}
use hy_paper.Trailing.{TrailingEval, evaluate_trailing, evaluate_all}
use hy_paper.Trailing.Hash.{read_trailing, show_bool}
use hy_paper.TrailingTicks.{fire_size, fire_trailing_stop, match_trailing_stop, evaluate_stop}
use hy_paper.TrailingTicks.MarginCap.{fired_size_passes_check}
use hy_paper.TrailingTicks.Affords.{IsFired, IsCancelled, fires_what_margin_affords}
use hy_paper.TrailingTicks.Quiet.{QuietTick, done, tick, params_of, state_of, stop_follows_machine}
use hy_paper.Samples.{sample_env, sample_order, sample_position, sample_store}

-- A stop of Ann that buys 500 where she holds 2, bought at some price.
abbrev order : Order ℤ
order = sample_order true 500 30

abbrev store : ℕ → Store ℤ
store entry_px = sample_store (sample_position (pos 2) (pos entry_px)) order

fired_size_passes_check_example :
    check_margin_for_order sample_env "ann" 0 true (pos 499) (pos 20) (store 100) ≡ true
unfolding fire_size available_margin max_affordable_order_size ◌+ℤ◌ ◌-ℤ◌ ◌*ℤ◌ div_ℤ balance_of
    get_leverage_setting mid_of scope_for_asset calculate_position_unrealized_pnl current_szi
fired_size_passes_check_example =
    fired_size_passes_check integers-IsOrdered integers-IsExact sample_env order (pos 20)
      (store 100) 9 (pos 499) (pos 499) refl refl refl refl refl refl refl

fires_what_margin_affords_example :
    let t = fire_trailing_stop sample_env 7 order (pos 20) (store 100) in
    (lte (pos 499) (pos 0) ≡ false → IsFired order (min (pos 500) (pos 499)) (store 100) t)
    × (lte (pos 499) (pos 0) ≡ true → IsCancelled 7 (store 100) t)
unfolding available_margin max_affordable_order_size ◌+ℤ◌ ◌-ℤ◌ ◌*ℤ◌ div_ℤ balance_of
    get_leverage_setting mid_of scope_for_asset calculate_position_unrealized_pnl current_szi
fires_what_margin_affords_example =
    fires_what_margin_affords sample_env 7 order (pos 20) (store 100) refl refl refl
      integers-IsOrdered integers-IsExact (pos 499) refl refl refl

-- A stop that sells, 5 below its best mark of 100, while the mark is 104.
abbrev seller : Order ℤ
seller = sample_order false 2 30

abbrev sold : Store ℤ
sold = sample_store (sample_position (pos 2) (pos 100)) seller

abbrev marked_env : Env ℤ
marked_env = record sample_env {
  ctx = λ coin. record { mark_px = some (pos 104); mark_ts = some 900 };
}

abbrev moved : TrailingEval ℤ
moved = record {
  state = record { activated = true; best = some (pos 104) };
  trigger_px = some (pos 99);
  limit_px = pos 0;
  fire = false;
}

abbrev after_tick : Store ℤ
after_tick = set_order 7 (persist_trailing_evaluation moved) sold

sold-Quiet : QuietTick 7 marked_env sold (pos 104) after_tick
unfolding evaluate_trailing read_trailing get_fresh_mark match_trailing_stop evaluate_stop show_bool
    ◌+ℤ◌ ◌-ℤ◌ ◌*ℤ◌ div_ℤ
sold-Quiet = record {
  order = seller;
  ev = moved;
  stored = refl;
  live = refl;
  fresh = refl;
  evaluated = refl;
  quiet = refl;
  ticked = refl;
}

quiet_run_follows_machine_example :
    (after : Order ℤ) × (after_tick.orders 7 ≡ some after)
    × (params_of after ≡ params_of seller)
    × (evaluate_all (params_of seller) (state_of seller) (pos 104 ∷ []) ≡ some (state_of after))
quiet_run_follows_machine_example =
    stop_follows_machine 7 sold after_tick (pos 104 ∷ []) seller refl
      (tick marked_env sold-Quiet done)
