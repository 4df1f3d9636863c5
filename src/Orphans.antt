-- ===== src/Orphans.antt =====
-- src/engine/trailing-state.ts: ending trailing stops without a fill, and what an evaluation persists.
pub mod Reconcile
mod Examples
use Prim.Native.String.{String}
use text.Mathlib.Text.{◌==◌ as str_eq}
use hy_paper.Prelude.{
  ℕ, Bool, true, false, not, ◌&&◌, Option, none, some, List, [], ◌∷◌, ◌++◌, ◌==◌, if◌then◌else◌,
}
use hy_paper.Prelude.Maps.{nat_keys, srem}
use hy_paper.Decimal.{Decimal, num, gt, lt}
use hy_paper.Trailing.{TrailingEval}
use hy_paper.Trailing.Hash.{show_bool}
use hy_paper.Orders.{
  Order, OrderStatus, triggered, reduce_only_canceled, trailing_stop, gtc, na, is_open,
  TrailingBody, build_trailing_body,
}
use hy_paper.Store.{
  Store, Event, order_update, order_update_batch, trailing_history, emit, set_order,
}

abbrev pub Update : Type 0 → Type 0
Update N = Order N × OrderStatus

module _ {N : Type 0} ⦃d : Decimal N⦄ where
  -- `persistTrailingEvaluation`: the fields that changed are written, the others keep what they had.
  unfoldable pub persist_trailing_evaluation : TrailingEval N → Order N → Order N
  unfolding show_bool
  persist_trailing_evaluation ev o =
      let trailing = o.trailing in
      record o {
        trailing = record trailing {
          tr_activated = show_bool ev.state.activated;
          tr_best = ev.state.best;
        };
        trigger_px = ev.trigger_px;
        limit_px = ev.limit_px;
      }

  -- The order as the event bus gets it.
  unfoldable pub paper_order_from_hash : Order N → OrderStatus → ℕ → Order N
  paper_order_from_hash o status at = record o {
    cloid = none;
    order_type = trailing_stop;
    tif = gtc;
    tpsl = none;
    is_market = false;
    grouping = na;
    status = status;
    updated_at = at;
    builder = none;
    twap_id = none;
  }

  -- The new hash of a stop that ends: its live body is frozen first.
  unfoldable pub ended : OrderStatus → ℕ → Order N → Order N
  ended status at o = record o {
    tr_snap = some (build_trailing_body o false);
    status = status;
    updated_at = at;
  }

  unfoldable pub drop_stop : ℕ → Store N → Store N
  unfolding srem
  drop_stop oid s = record s {
    orders_trailing = srem oid s.orders_trailing;
    orders_open = srem oid s.orders_open;
    orders_triggers = srem oid s.orders_triggers;
    orders_expiry = srem oid s.orders_expiry;
  }

  announce : Order N → OrderStatus → ℕ → Bool → Bool → Store N → Store N
  unfolding emit paper_order_from_hash
  announce o status at true true s =
      emit
        (order_update_batch o.user_id (
          (paper_order_from_hash o triggered at, triggered)
          ∷ (paper_order_from_hash o status at, status)
          ∷ []))
        s
  announce o status at true false s =
      emit (order_update o.user_id (paper_order_from_hash o status at) status) s
  announce o status at false _ s = s

  log_end : Order N → OrderStatus → ℕ → Bool → Store N → Store N
  unfolding emit
  log_end o status at after_trigger s =
      let frozen = build_trailing_body o false in
      let history = λ (st : OrderStatus). trailing_history o.user_id o.oid st at frozen in
      emit (history status) (if after_trigger then emit (history triggered) s else s)

  -- The writes of `terminateTrailingStop` on an order that is still open.
  pub end_stop : ℕ → Order N → OrderStatus → ℕ → Bool → Bool → Store N → Store N
  unfolding ended drop_stop announce log_end set_order
  end_stop oid o status at emit_update after_trigger s =
      announce o status at emit_update after_trigger
        (log_end o status at after_trigger (drop_stop oid (set_order oid (ended status at) s)))

  pub terminate_trailing_stop : ℕ → OrderStatus → ℕ → Bool → Bool → Store N → Bool × Store N
  terminate_trailing_stop oid status at emit_update after_trigger s = elim (s.orders oid) [
    | none ↦ (false, s)
    | some o ↦
        if is_open o.status
        then (true, end_stop oid o status at emit_update after_trigger s)
        else (false, s)
  ]

  pub can_reduce : N → Bool → Bool
  can_reduce new_szi is_buy =
      if gt new_szi (num 0) then not is_buy else if lt new_szi (num 0) then is_buy else false

  -- An open reduce-only stop of the user on the asset that can no longer reduce the position.
  pub is_orphan : String → ℕ → N → Order N → Bool
  unfolding can_reduce
  is_orphan user asset new_szi o =
      is_open o.status
      && (str_eq o.user_id user
          && ((o.asset == asset) && (o.reduce_only && not (can_reduce new_szi o.is_buy))))

  pub reconcile_one : String → ℕ → N → ℕ → ℕ → Store N → List (Update N) × Store N
  unfolding terminate_trailing_stop
  reconcile_one user asset new_szi at oid s = elim (s.orders oid) [
    | none ↦ ([], s)
    | some o ↦
        if is_orphan user asset new_szi o
        then (
          (paper_order_from_hash o reduce_only_canceled at, reduce_only_canceled) ∷ [],
          (terminate_trailing_stop oid reduce_only_canceled at false false s).1,
        )
        else ([], s)
  ]

  pub reconcile_each : String → ℕ → N → ℕ → List ℕ → Store N → List (Update N) × Store N
  reconcile_each user asset new_szi at [] s = ([], s)
  reconcile_each user asset new_szi at (oid ∷ oids) s =
      let first = reconcile_one user asset new_szi at oid s in
      let rest = reconcile_each user asset new_szi at oids first.1 in (first.0 ++ rest.0, rest.1)

  -- `reconcileReduceOnlyStops`
  pub reconcile_reduce_only_stops : String → ℕ → N → ℕ → Store N → List (Update N) × Store N
  unfolding reconcile_each reconcile_one
  reconcile_reduce_only_stops user asset new_szi at s =
      reconcile_each user asset new_szi at s.orders_trailing s
