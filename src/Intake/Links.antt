-- ===== src/Intake/Links.antt =====
-- src/engine/order.ts, placeOrders: the orders of a batch one after the other, and the links of a bracket.
pub mod Oco
pub mod Alone
pub mod Entry
use Prim.Native.String.{String}
use hy_paper.Prelude.{ℕ, Option, none, some, List, [], ◌∷◌}
use hy_paper.Prelude.Maps.{nat_keys, sadd, srem, update}
use hy_paper.Decimal.{Decimal}
use hy_paper.Orders.{Grouping, na, normal_tpsl, position_tpsl}
use hy_paper.Store.{Store}
use hy_paper.Intake.{
  IntakeEnv, IntakeState, OrderWire, PlaceOpts, OrderStatusReply, resting, filled_at, refused,
  success,
}
use hy_paper.Intake.Place.{place_single_order}

-- SADD of several members.
pub sadd_all : List ℕ → List ℕ → List ℕ
unfolding sadd
sadd_all [] set = set
sadd_all (a ∷ rest) set = sadd_all rest (sadd a set)

module _ {N : Type 0} where
  -- The numbers of the orders that were placed.
  pub placed_oids : List (OrderStatusReply N) → List ℕ
  placed_oids [] = []
  placed_oids (resting oid cloid ∷ replies) = oid ∷ placed_oids replies
  placed_oids (filled_at sz px oid cloid ∷ replies) = oid ∷ placed_oids replies
  placed_oids (refused e ∷ replies) = placed_oids replies
  placed_oids (success ∷ replies) = placed_oids replies

  -- An order gets the others of the list as siblings.
  pub link_sibling : List ℕ → ℕ → Store N → Store N
  unfolding sadd_all srem update
  link_sibling all oid s = record s {
    order_bracket = update s.order_bracket oid (sadd_all (srem oid all) (s.order_bracket oid));
  }

  -- A bracket with no entry: every leg is a sibling of every other.
  pub link_mutual : List ℕ → List ℕ → Store N → Store N
  unfolding link_sibling
  link_mutual all [] s = s
  link_mutual all (oid ∷ oids) s = link_mutual all oids (link_sibling all oid s)

  pub link_children : ℕ → List ℕ → List ℕ → Store N → Store N
  unfolding link_sibling update
  link_children parent all [] s = s
  link_children parent all (child ∷ children) s =
      let pointed : Store N = record s {
        order_parent = update s.order_parent child (some parent);
      } in
      link_children parent all children (link_sibling all child pointed)

  -- An entry, the first of the batch, with its children.
  pub link_entry : ℕ → List ℕ → Store N → Store N
  unfolding link_children sadd_all update
  link_entry parent children s =
      let held : Store N = record s {
        order_children =
            update s.order_children parent (sadd_all children (s.order_children parent));
      } in
      link_children parent children children held

  -- What a batch of more than one placed order is linked to.
  pub link_bracket : Grouping → List ℕ → Store N → Store N
  unfolding link_mutual link_entry
  link_bracket position_tpsl (first ∷ second ∷ more) s =
      link_mutual (first ∷ second ∷ more) (first ∷ second ∷ more) s
  link_bracket normal_tpsl (first ∷ second ∷ more) s = link_entry first (second ∷ more) s
  link_bracket _ _ s = s

module _ {N : Type 0} ⦃d : Decimal N⦄ where
  pub place_each :
      IntakeEnv N
      → String
      → Grouping
      → PlaceOpts
      → List (OrderWire N)
      → IntakeState N
      → List (OrderStatusReply N) × IntakeState N
  place_each ie user grouping opts [] st = ([], st)
  place_each ie user grouping opts (wire ∷ wires) st =
      let first = place_single_order ie user wire grouping opts st in
      let rest = place_each ie user grouping opts wires first.1 in (first.0 ∷ rest.0, rest.1)

  -- `placeOrders`
  pub place_orders :
      IntakeEnv N
      → String
      → List (OrderWire N)
      → Grouping
      → PlaceOpts
      → IntakeState N
      → List (OrderStatusReply N) × IntakeState N
  unfolding place_each link_bracket placed_oids
  place_orders ie user wires grouping opts st =
      let placed = place_each ie user grouping opts wires st in
      let after = placed.1 in
      (placed.0, record after { store = link_bracket grouping (placed_oids placed.0) after.store })
