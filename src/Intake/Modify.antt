-- ===== src/Intake/Modify.antt =====
-- src/engine/order.ts, modifyOrder and batchModifyOrders: an order is cancelled, another placed for it,
-- and the links of its bracket are carried over.
pub mod Carried
use Prim.Native.String.{String}
use text.Mathlib.Text.{◌==◌ as str_eq}
use hy_paper.Prelude.{
  ℕ, Bool, true, false, not, Option, none, some, ◌>>=◌, List, [], ◌∷◌, if◌then◌else◌,
}
use hy_paper.Prelude.Maps.{nat_keys, sadd, srem, update}
use hy_paper.Decimal.{Decimal}
use hy_paper.Orders.{Order, OrderStatus, cancelled, is_open}
use hy_paper.Store.{Store, order_update, emit, set_order}
use hy_paper.Bracket.{as_cancelled, cancelled_update, unlink}
use hy_paper.Intake.{
  IntakeEnv, IntakeState, OrderWire, PlaceOpts, OrderError, not_found, modify_invalid,
  cannot_modify, OrderStatusReply, resting, filled_at, refused, success,
}
use hy_paper.Intake.Place.{place_single_order}
use hy_paper.Intake.Cancel.{is_trailing, open_children, drop_children, in_turn, cancel_orders}
use hy_paper.Intake.Links.{sadd_all}

swap : ℕ → Option ℕ → List ℕ → List ℕ
unfolding srem sadd
swap old none set = srem old set
swap old (some oid) set = sadd oid (srem old set)

abbrev pub no_opts : PlaceOpts
no_opts = record { expires_after = none; builder = none; twap_id = none }

-- The order that is to be modified, or why it is none.
pub data Target (N : Type 0) : Type 0 where
  no_target : OrderError → Target N
  target : Order N → Target N

module _ {N : Type 0} where
  pub find_target : String → Option (Order N) → Target N
  find_target user none = no_target not_found
  find_target user (some o) =
      if not (str_eq o.user_id user)
      then no_target not_found
      else if is_trailing o.order_type
      then no_target modify_invalid
      else if not (is_open o.status)
      then no_target cannot_modify
      else target o

  -- The number of a replacement that rests.
  pub new_oid : OrderStatusReply N → Option ℕ
  new_oid (resting oid cloid) = some oid
  new_oid (filled_at sz px oid cloid) = none
  new_oid (refused e) = none
  new_oid success = none

  -- The parent gets the replacement for the old child, if there is one.
  pub swap_child : ℕ → Option ℕ → Option ℕ → Store N → Store N
  unfolding srem sadd update
  swap_child old new none s = s
  swap_child old none (some parent) s = record s {
    order_children = update s.order_children parent (srem old (s.order_children parent));
  }
  swap_child old (some oid) (some parent) s = record s {
    order_children = update s.order_children parent (sadd oid (srem old (s.order_children parent)));
    order_parent = update s.order_parent oid (some parent);
  }

  -- Every sibling gets the replacement for the old one.
  pub swap_siblings : ℕ → Option ℕ → List ℕ → Store N → Store N
  unfolding swap update
  swap_siblings old new [] s = s
  swap_siblings old new (sib ∷ sibs) s =
      swap_siblings old new sibs (record s {
        order_bracket = update s.order_bracket sib (swap old new (s.order_bracket sib));
      })

  pub inherit_siblings : Option ℕ → List ℕ → Store N → Store N
  unfolding update
  inherit_siblings none siblings s = s
  inherit_siblings (some oid) siblings s = record s {
    order_bracket = update s.order_bracket oid (sadd_all siblings (s.order_bracket oid));
  }

  -- The writes of `carryBracketLinks` once the children are gone.
  pub hand_over : ℕ → Option ℕ → Option ℕ → List ℕ → Store N → Store N
  unfolding swap_child swap_siblings inherit_siblings unlink
  hand_over old new parent siblings s =
      inherit_siblings new siblings
        (swap_siblings old new siblings (swap_child old new parent (unlink old s)))

  -- The writes on an order that is to be replaced.
  pub withdraw : String → ℕ → ℕ → Order N → Store N → Store N
  unfolding set_order as_cancelled srem emit cancelled_update
  withdraw user now oid o s =
      let marked = set_order oid (as_cancelled now) s in
      let dropped : Store N = record marked {
        orders_open = srem oid s.orders_open;
        orders_triggers = srem oid s.orders_triggers;
        orders_expiry = srem oid s.orders_expiry;
      } in
      emit (order_update user (cancelled_update user now o) cancelled) dropped

module _ {N : Type 0} ⦃d : Decimal N⦄ where
  pub end_children : ℕ → String → ℕ → ℕ → List ℕ → Store N → Option (Store N)
  end_children fuel user now old [] s = some s
  end_children fuel user now old (child ∷ children) s = do
    done ←
        cancel_orders fuel user now (open_children user s (child ∷ children))
          (drop_children old (child ∷ children) s)
    some done.1

  pub carry_bracket_links : ℕ → String → ℕ → ℕ → OrderStatusReply N → Store N → Option (Store N)
  unfolding end_children hand_over new_oid
  carry_bracket_links fuel user now old replacement s = do
    t ← end_children fuel user now old (s.order_children old) s
    some (hand_over old (new_oid replacement) (s.order_parent old) (s.order_bracket old) t)

  pub replace_order :
      ℕ
      → IntakeEnv N
      → String
      → ℕ
      → Order N
      → OrderWire N
      → IntakeState N
      → Option (OrderStatusReply N × IntakeState N)
  unfolding withdraw carry_bracket_links
  replace_order fuel ie user oid o wire st = do
    let now = ie.env.now
    let withdrawn : IntakeState N = record st { store = withdraw user now oid o st.store }
    let placed = place_single_order ie user wire o.grouping no_opts withdrawn
    let after = placed.1
    t ← carry_bracket_links fuel user now oid placed.0 after.store
    some (placed.0, record after { store = t })

  -- One entry of `batchModifyOrders`, and what the replacement was answered.
  pub modify_entry :
      ℕ
      → IntakeEnv N
      → String
      → ℕ
      → OrderWire N
      → IntakeState N
      → Option (OrderStatusReply N × IntakeState N)
  unfolding find_target replace_order
  modify_entry fuel ie user oid wire st = elim (find_target user (st.store.orders oid)) [
    | no_target e ↦ some (refused e, st)
    | target o ↦ replace_order fuel ie user oid o wire st
  ]

  -- `modifyOrder`, which answers that all is well whatever the replacement was answered.
  pub modify_order :
      ℕ
      → IntakeEnv N
      → String
      → ℕ
      → OrderWire N
      → IntakeState N
      → Option (Option OrderError × IntakeState N)
  unfolding find_target replace_order
  modify_order fuel ie user oid wire st = elim (find_target user (st.store.orders oid)) [
    | no_target e ↦ some (some e, st)
    | target o ↦ do done ← replace_order fuel ie user oid o wire st; some (none, done.1)
  ]

  -- `batchModifyOrders`
  pub batch_modify_orders :
      ℕ
      → IntakeEnv N
      → String
      → List (ℕ × OrderWire N)
      → IntakeState N
      → Option (List (OrderStatusReply N) × IntakeState N)
  unfolding modify_entry
  batch_modify_orders fuel ie user [] st = some ([], st)
  batch_modify_orders fuel ie user (request ∷ requests) st = do
    first ← modify_entry fuel ie user request.0 request.1 st
    rest ← batch_modify_orders fuel ie user requests first.1
    some (first.0 ∷ rest.0, rest.1)
