-- ===== src/Bracket.antt =====
-- `cancelOrderSiblings` of src/worker/order-matcher.ts: when one leg of a bracket fills, the others go.
pub mod Siblings
pub mod Holdings
mod Examples
use Prim.Native.String.{String}
use hy_paper.Prelude.{ℕ, Bool, true, false, Option, none, some, List, [], ◌∷◌, ◌==◌, if◌then◌else◌}
use hy_paper.Prelude.Maps.{nat_keys, srem, update}
use hy_paper.Orders.{Order, OrderStatus, cancelled, is_open}
use hy_paper.Store.{Store, order_update, emit, set_order}

module _ {N : Type 0} where
  -- The order of a cancelled sibling, as the event bus gets it.
  unfoldable pub cancelled_update : String → ℕ → Order N → Order N
  cancelled_update user now o = record o {
    user_id = user;
    status = cancelled;
    updated_at = now;
    trigger_px = none;
    tpsl = none;
    is_market = false;
    builder = none;
    twap_id = none;
    tr_snap = none;
  }

  unfoldable pub as_cancelled : ℕ → Order N → Order N
  as_cancelled now o = record o { status = cancelled; updated_at = now }

  -- Takes an order off the children of its parent, if it has one.
  pub drop_child : Option ℕ → ℕ → Store N → Store N
  unfolding srem update
  drop_child none oid s = s
  drop_child (some parent) oid s = if parent == 0 then s else record s {
    order_children = update s.order_children parent (srem oid (s.order_children parent));
  }

  unfoldable pub unlink : ℕ → Store N → Store N
  unfolding update
  unlink oid s = record s {
    order_bracket = update s.order_bracket oid [];
    order_parent = update s.order_parent oid none;
  }

  -- The writes on a sibling that is still open.
  pub cancel_open : String → ℕ → Option ℕ → ℕ → Order N → Store N → Store N
  unfolding as_cancelled cancelled_update set_order srem drop_child unlink emit
  cancel_open user now parent sib o s =
      let marked = set_order sib (as_cancelled now) s in
      let dropped = record marked {
        orders_open = srem sib s.orders_open;
        orders_triggers = srem sib s.orders_triggers;
      } in
      emit (order_update user (cancelled_update user now o) cancelled)
        (drop_child parent sib (unlink sib dropped))

  pub cancel_sibling : String → ℕ → Option ℕ → ℕ → Store N → Store N
  unfolding cancel_open
  cancel_sibling user now parent sib s = elim (s.orders sib) [
    | none ↦ s
    | some o ↦ if is_open o.status then cancel_open user now parent sib o s else s
  ]

  pub cancel_each : String → ℕ → Option ℕ → List ℕ → Store N → Store N
  cancel_each user now parent [] s = s
  cancel_each user now parent (sib ∷ sibs) s =
      cancel_each user now parent sibs (cancel_sibling user now parent sib s)

  pub orphan_children : List ℕ → Store N → Store N
  unfolding update
  orphan_children [] s = s
  orphan_children (child ∷ children) s =
      orphan_children children (record s { order_parent = update s.order_parent child none })

  pub cancel_siblings_of : ℕ → String → ℕ → List ℕ → List ℕ → Store N → Store N
  unfolding update orphan_children unlink drop_child cancel_each
  -- a parent: its children stay alive, and are its children no more
  cancel_siblings_of oid user now (child ∷ children) siblings s =
      orphan_children (child ∷ children)
        (record s { order_children = update s.order_children oid [] })
  -- no link, or none left
  cancel_siblings_of oid user now [] [] s = record s {
    order_parent = update s.order_parent oid none;
  }
  -- a child: its siblings are cancelled
  cancel_siblings_of oid user now [] (sib ∷ sibs) s =
      let parent = s.order_parent oid in
      cancel_each user now parent (sib ∷ sibs) (drop_child parent oid (unlink oid s))

  pub cancel_order_siblings : ℕ → String → ℕ → Store N → Store N
  unfolding cancel_siblings_of
  cancel_order_siblings oid user now s =
      cancel_siblings_of oid user now (s.order_children oid) (s.order_bracket oid) s
