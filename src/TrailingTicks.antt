-- ===== src/TrailingTicks.antt =====
-- src/worker/order-matcher.ts, one tick over the trailing stops: matchTrailingStops and
-- fireTrailingStop.
pub mod MarginCap
pub mod Affords
pub mod Indexed
pub mod Quiet
mod Examples
use Prim.Native.String.{String}
use hy_paper.Prelude.{
  ℕ, Bool, true, false, not, ◌&&◌, ◌||◌, Option, none, some, List, [], ◌∷◌, if◌then◌else◌,
}
use hy_paper.Prelude.Maps.{nat_keys, srem}
use hy_paper.Decimal.{Decimal, num, gt, lt, is_zero, round_to_decimals}
use hy_paper.Trailing.{evaluate_trailing}
use hy_paper.Trailing.Hash.{show_bool, read_trailing}
use hy_paper.MarkFeed.{get_fresh_mark}
use hy_paper.Orders.{Order, margin_canceled, is_open, build_trailing_body}
use hy_paper.Store.{Store, set_order}
use hy_paper.Orphans.{persist_trailing_evaluation, terminate_trailing_stop}
use hy_paper.Env.{Env, mid_of}
use hy_paper.NextPosition.{current_szi}
use hy_paper.Matcher.{execute_fill}
use hy_paper.Margin.{max_affordable_order_size}
use hy_paper.Ticks.{compute_fill_price}

module _ {N : Type 0} ⦃d : Decimal N⦄ where
  pub nothing_to_reduce : Order N → N → Bool
  nothing_to_reduce o szi =
      let is_long = gt szi (num 0) in
      o.reduce_only && (is_zero szi || (if o.is_buy then is_long else not is_long))

  unfoldable pub freeze_trailing_snapshot : ℕ → Order N → Store N → Store N
  unfolding set_order
  freeze_trailing_snapshot oid o s =
      set_order oid (λ hash. record hash { tr_snap = some (build_trailing_body o false) }) s

  -- The size that fires: none, if the margin affords nothing.
  pub fire_size : Env N → Order N → N → Store N → Option N
  fire_size env o mark s =
      if o.reduce_only
      then some o.sz
      else elim (max_affordable_order_size env o.user_id o.asset o.is_buy mark s) [
        | none ↦ some o.sz
        | some cap ↦
            let affordable = round_to_decimals cap o.trailing.tr_sz_dec in
            if lt affordable o.sz
            then if gt affordable (num 0) then some affordable else none
            else some o.sz
      ]

  pub mid_or_mark : Env N → Order N → N → N
  unfolding mid_of
  mid_or_mark env o mark = elim (mid_of o.coin env.mids) [ none ↦ mark | some mid ↦ mid ]

  -- The market order of a stop that fires, at most at its limit price.
  pub fill_stop : Env N → Order N → N → Store N → Store N
  unfolding mid_or_mark
  fill_stop env order mark s =
      let px = compute_fill_price env order (mid_or_mark env order mark) (some order.limit_px) in
      execute_fill env order px true s

  -- What is left of `fireTrailingStop` once the stop can fire.
  pub fire_frozen : Env N → ℕ → Order N → N → Store N → Store N
  unfolding freeze_trailing_snapshot fire_size fill_stop
  fire_frozen env oid o mark s =
      let frozen = freeze_trailing_snapshot oid o s in
      elim (fire_size env o mark frozen) [
        | none ↦ (terminate_trailing_stop oid margin_canceled env.now true true frozen).1
        | some sz ↦ elim (frozen.orders oid) [
          | none ↦ frozen
          | some full ↦ fill_stop env (record full { sz = sz }) mark frozen
        ]
      ]

  pub fire_trailing_stop : Env N → ℕ → Order N → N → Store N → Store N
  unfolding nothing_to_reduce fire_frozen
  fire_trailing_stop env oid o mark s = elim (s.orders oid) [
    | none ↦ s
    | some stored ↦
        if is_open stored.status
        then if nothing_to_reduce o (current_szi (s.positions (o.user_id, o.asset)))
          then s
          else fire_frozen env oid o mark s
        else s
  ]

  pub drop_trailing : ℕ → Store N → Store N
  drop_trailing oid s = record s { orders_trailing = srem oid s.orders_trailing }

  -- An open stop and a fresh mark. None: the evaluation throws.
  pub evaluate_stop : Env N → ℕ → Order N → N → Store N → Option (Store N)
  unfolding fire_trailing_stop
  evaluate_stop env oid o mark s =
      let (p, state) = read_trailing (show_bool o.is_buy) o.trailing in
      elim (evaluate_trailing p state mark) [
        | none ↦ none
        | some ev ↦
            let kept = set_order oid (persist_trailing_evaluation ev) s in
            some (
              if ev.fire
              then fire_trailing_stop env oid (persist_trailing_evaluation ev o) mark kept
              else kept)
      ]

  -- The body of the loop of `matchTrailingStops`.
  pub match_trailing_stop : Env N → ℕ → Store N → Option (Store N)
  unfolding drop_trailing evaluate_stop
  match_trailing_stop env oid s = elim (s.orders oid) [
    | none ↦ some (drop_trailing oid s)
    | some o ↦
        if is_open o.status
        then elim (get_fresh_mark (env.ctx o.coin) env.now) [
          | none ↦ some s
          | some mark ↦ evaluate_stop env oid o mark s
        ]
        else some (drop_trailing oid s)
  ]

  -- The loop, with whether it ran to its end: a stop that throws ends the tick.
  pub match_each_stop : Env N → List ℕ → Store N → Bool × Store N
  unfolding match_trailing_stop
  match_each_stop env [] s = (true, s)
  match_each_stop env (oid ∷ oids) s = elim (match_trailing_stop env oid s) [
    | none ↦ (false, s)
    | some t ↦ match_each_stop env oids t
  ]

  pub match_trailing_stops : Env N → Store N → Bool × Store N
  unfolding match_each_stop
  match_trailing_stops env s = match_each_stop env s.orders_trailing s
