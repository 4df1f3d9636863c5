-- ===== src/Intake/Cancel.antt =====
-- src/engine/order.ts, cancelOrders and cancelByCloid: the cancellation of an order, which takes the
-- children of a bracket with it. The cascade is cut by fuel, one for each step down the links.
pub mod Only
pub mod Count
pub mod Served
pub mod Total
use Prim.Native.String.{String}
use text.Mathlib.Text.{◌==◌ as str_eq}
use hy_paper.Prelude.{
  ℕ, zero, suc, Bool, true, false, not, ◌&&◌, Option, none, some, ◌>>=◌, List, [], ◌∷◌,
  if◌then◌else◌,
}
use hy_paper.Prelude.Maps.{nat_keys, srem, update}
use hy_paper.Decimal.{Decimal}
use hy_paper.Orders.{
  Order, OrderType, trailing_stop, limit, trigger, OrderStatus, cancelled, is_open,
}
use hy_paper.Store.{Store, order_update, trailing_history, emit, set_order}
use hy_paper.Bracket.{cancelled_update, as_cancelled, unlink}
use hy_paper.Orphans.{ended, drop_stop}
use hy_paper.Orders.{build_trailing_body}
use hy_paper.Intake.{
  IntakeState, OrderError, not_found, not_open, already_finished, cloid_not_found, OrderStatusReply,
  refused, success,
}

abbrev pub is_trailing : OrderType → Bool
is_trailing trailing_stop = true
is_trailing _ = false

module _ {N : Type 0} where
  -- Whether the order is there, open, and the user's.
  pub is_own_open : String → Option (Order N) → Bool
  is_own_open user none = false
  is_own_open user (some o) = str_eq o.user_id user && is_open o.status

  -- The children that the cascade is to cancel.
  pub open_children : String → Store N → List ℕ → List ℕ
  unfolding is_own_open
  open_children user s [] = []
  open_children user s (child ∷ children) =
      let rest = open_children user s children in
      if is_own_open user (s.orders child) then child ∷ rest else rest

  -- The children lose their links, whatever their status is.
  pub unlink_each : List ℕ → Store N → Store N
  unfolding unlink
  unlink_each [] s = s
  unlink_each (child ∷ children) s = unlink_each children (unlink child s)

  pub drop_children : ℕ → List ℕ → Store N → Store N
  unfolding unlink_each update
  drop_children oid children s =
      unlink_each children (record s { order_children = update s.order_children oid [] })

  -- The requests one after the other, with the replies in their order.
  pub in_turn {ℓ} :
      {A : Type ℓ}
      → (A → Store N → Option (OrderStatusReply N × Store N))
      → List A
      → Store N
      → Option (List (OrderStatusReply N) × Store N)
  in_turn step [] s = some ([], s)
  in_turn step (request ∷ requests) s = do
    first ← step request s
    rest ← in_turn step requests first.1
    some (first.0 ∷ rest.0, rest.1)

module _ {N : Type 0} ⦃d : Decimal N⦄ where
  -- The hash and the sets of an order that is cancelled. The body of a trailing stop is frozen.
  pub close_order : ℕ → Order N → ℕ → Store N → Store N
  unfolding drop_stop set_order ended as_cancelled emit
  close_order oid o now s =
      if is_trailing o.order_type
      then emit (trailing_history o.user_id o.oid cancelled now (build_trailing_body o false))
          (drop_stop oid (set_order oid (ended cancelled now) s))
      else drop_stop oid (set_order oid (as_cancelled now) s)

  -- The links of an order that is closed: its children are cancelled, or else its own links dropped.
  pub cascade :
      (ℕ → Store N → Option (OrderStatusReply N × Store N))
      → String
      → ℕ
      → List ℕ
      → Store N
      → Option (Store N)
  unfolding open_children drop_children unlink in_turn
  cascade step user oid [] s = some (unlink oid s)
  cascade step user oid (child ∷ children) s = do
    done ←
        in_turn step (open_children user s (child ∷ children))
          (drop_children oid (child ∷ children) s)
    some done.1

  pub cancel_own :
      (ℕ → Store N → Option (OrderStatusReply N × Store N))
      → String
      → ℕ
      → ℕ
      → Order N
      → Store N
      → Option (OrderStatusReply N × Store N)
  unfolding close_order cascade emit cancelled_update
  cancel_own step user now oid o s = do
    t ← cascade step user oid (s.order_children oid) (close_order oid o now s)
    some (success, emit (order_update user (cancelled_update user now o) cancelled) t)

  -- One request, with the cancellation that its children are to go through.
  pub cancel_request :
      (ℕ → Store N → Option (OrderStatusReply N × Store N))
      → String
      → ℕ
      → ℕ
      → Store N
      → Option (OrderStatusReply N × Store N)
  unfolding cancel_own
  cancel_request step user now oid s = elim (s.orders oid) [
    | none ↦ some (refused not_found, s)
    | some o ↦
        if not (str_eq o.user_id user)
        then some (refused not_found, s)
        else if not (is_open o.status)
        then some (refused (if is_trailing o.order_type then already_finished else not_open), s)
        else cancel_own step user now oid o s
  ]

  pub cancel_order : ℕ → String → ℕ → ℕ → Store N → Option (OrderStatusReply N × Store N)
  unfolding cancel_request
  cancel_order zero user now oid s = none
  cancel_order (suc fuel) user now oid s =
      cancel_request (cancel_order fuel user now) user now oid s

  -- `cancelOrders`
  pub cancel_orders :
      ℕ → String → ℕ → List ℕ → Store N → Option (List (OrderStatusReply N) × Store N)
  unfolding cancel_order in_turn
  cancel_orders fuel user now oids s = in_turn (cancel_order fuel user now) oids s

  pub cancel_cloid :
      ℕ
      → String
      → ℕ
      → (String × String → Option ℕ)
      → String
      → Store N
      → Option (OrderStatusReply N × Store N)
  unfolding cancel_order
  cancel_cloid fuel user now cloids cloid s = elim (cloids (user, cloid)) [
    | none ↦ some (refused cloid_not_found, s)
    | some oid ↦ cancel_order fuel user now oid s
  ]

  -- `cancelByCloid`
  pub cancel_by_cloid :
      ℕ
      → String
      → ℕ
      → (String × String → Option ℕ)
      → List String
      → Store N
      → Option (List (OrderStatusReply N) × Store N)
  unfolding cancel_cloid in_turn
  cancel_by_cloid fuel user now cloids requests s =
      in_turn (cancel_cloid fuel user now cloids) requests s
