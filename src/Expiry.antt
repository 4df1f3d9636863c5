-- ===== src/Expiry.antt =====
-- src/worker/order-matcher.ts, sweepExpired: orders past their `expiresAfter` are cancelled.
pub mod Swept
pub mod Children
mod Examples
use hy_paper.Prelude.{ℕ, Bool, true, false, Option, none, some, List, [], ◌∷◌, if◌then◌else◌, leb}
use hy_paper.Prelude.Maps.{nat_keys, srem}
use hy_paper.Decimal.{Decimal}
use hy_paper.Orders.{
  Order, OrderType, limit, trigger, trailing_stop, cancelled, is_open, build_trailing_body,
}
use hy_paper.Store.{Store, order_update, trailing_history, emit, set_order}
use hy_paper.Bracket.{as_cancelled, cancelled_update}

-- ZRANGEBYSCORE: the members whose score is a time or before it, here in the order of the list.
pub due_at : (ℕ → ℕ) → ℕ → List ℕ → List ℕ
due_at score now [] = []
due_at score now (oid ∷ oids) =
    let rest = due_at score now oids in if leb (score oid) now then oid ∷ rest else rest

module _ {N : Type 0} where
  pub drop_expiry : ℕ → Store N → Store N
  unfolding srem
  drop_expiry oid s = record s { orders_expiry = srem oid s.orders_expiry }

module _ {N : Type 0} ⦃d : Decimal N⦄ where
  pub log_expired : OrderType → ℕ → Order N → Store N → Store N
  unfolding emit
  log_expired trailing_stop now o s =
      emit (trailing_history o.user_id o.oid cancelled now (build_trailing_body o false)) s
  log_expired limit now o s = s
  log_expired trigger now o s = s

  -- The writes on an order that is open.
  pub expire_open : ℕ → ℕ → Order N → Store N → Store N
  unfolding set_order srem as_cancelled cancelled_update log_expired emit
  expire_open now oid o s =
      let marked = set_order oid (as_cancelled now) s in
      let dropped : Store N = record marked {
        orders_open = srem oid s.orders_open;
        orders_triggers = srem oid s.orders_triggers;
        orders_trailing = srem oid s.orders_trailing;
      } in
      emit (order_update o.user_id (cancelled_update o.user_id now o) cancelled)
        (log_expired o.order_type now o dropped)

  -- The body of the loop.
  pub sweep_order : ℕ → ℕ → Store N → Store N
  unfolding drop_expiry expire_open
  sweep_order now oid s = elim (s.orders oid) [
    | none ↦ drop_expiry oid s
    | some o ↦
        if is_open o.status then expire_open now oid o (drop_expiry oid s) else drop_expiry oid s
  ]

  pub sweep_each : ℕ → List ℕ → Store N → Store N
  unfolding sweep_order
  sweep_each now [] s = s
  sweep_each now (oid ∷ oids) s = sweep_each now oids (sweep_order now oid s)

  pub sweep_expired : ℕ → Store N → Store N
  unfolding sweep_each due_at
  sweep_expired now s = sweep_each now (due_at s.expiry_at now s.orders_expiry) s
