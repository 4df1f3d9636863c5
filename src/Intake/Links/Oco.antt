-- ===== src/Intake/Links/Oco.antt =====
-- What the links that placeOrders of src/engine/order.ts makes do when a leg of the bracket ends.
use Prim.Native.String.{String}
use hy_paper.Prelude.{
  ℕ, ◌≡◌, refl, ap, ◌∙◌, true, false, ◌&&◌, ◌||◌, inl, inr, some, List, [], ◌∷◌, arith, ◌==◌,
  if◌then◌else◌, Bool-cases,
}
use hy_paper.Prelude.Maps.{nat_keys, sadd, srem, update, contains, contains-srem, contains-sadd}
use hy_paper.Orders.{Order, is_open, position_tpsl}
use hy_paper.Store.{Store}
use hy_paper.Bracket.{as_cancelled, cancel_order_siblings}
use hy_paper.Bracket.Siblings.{View, view, one_cancels_other}
use hy_paper.Intake.Links.{sadd_all, link_sibling, link_mutual, link_children, link_bracket}

pub contains-sadd_all :
    (b : ℕ) (added xs : List ℕ)
    → contains b (sadd_all added xs) ≡ (contains b added || contains b xs)
unfolding sadd_all contains
contains-sadd_all b [] xs = refl
contains-sadd_all b (a ∷ added) xs = ground (
  arith,
  contains-sadd_all b added (sadd a xs),
  contains-sadd a b xs,
  nat_keys.beq_iff a b,
  nat_keys.beq_iff b a,
)

module _ {N : Type 0} where
  link_sibling-bracket :
      (all : List ℕ) (oid a b : ℕ) (s : Store N)
      → contains b ((link_sibling all oid s).order_bracket a) ≡ (
          contains b (s.order_bracket a)
          || ((oid == a) && (contains b all && (if a == b then false else true))))
  unfolding link_sibling update
  link_sibling-bracket all oid a b s = elim (Bool-cases (oid == a)) [
    | inr ne ↦ rw ne (ground arith)
    | inl e ↦
        let same : oid ≡ a = (nat_keys.beq_iff oid a).0 e in
        rw
          (
            e,
            contains-sadd_all b (srem oid all) (s.order_bracket oid),
            contains-srem oid b all,
            same,
          )
          (ground arith)
  ]

  link_mutual-bracket :
      (all oids : List ℕ) (a b : ℕ) (s : Store N)
      → contains b ((link_mutual all oids s).order_bracket a) ≡ (
          contains b (s.order_bracket a)
          || (contains a oids && (contains b all && (if a == b then false else true))))
  unfolding link_mutual contains
  link_mutual-bracket all [] a b s = ground arith
  link_mutual-bracket all (oid ∷ oids) a b s = ground (
    arith,
    link_mutual-bracket all oids a b (link_sibling all oid s),
    link_sibling-bracket all oid a b s,
  )

  -- What linking siblings leaves alone: what a tick reads of an order, and the children.
  link_mutual-kept :
      (all oids : List ℕ) (j : ℕ) (s : Store N)
      → (view (link_mutual all oids s) j ≡ view s j)
        × ((link_mutual all oids s).order_children j ≡ s.order_children j)
  unfolding link_mutual link_sibling
  link_mutual-kept all [] j s = (refl, refl)
  link_mutual-kept all (oid ∷ oids) j s = link_mutual-kept all oids j (link_sibling all oid s)

  pub link_children-kept :
      (parent : ℕ) (all children : List ℕ) (j : ℕ) (s : Store N)
      → (view (link_children parent all children s) j ≡ view s j)
        × ((link_children parent all children s).order_children j ≡ s.order_children j)
  unfolding link_children link_sibling
  link_children-kept parent all [] j s = (refl, refl)
  link_children-kept parent all (child ∷ children) j s = link_children-kept parent all children j _

  pub link_children-bracket :
      (parent : ℕ) (all children : List ℕ) (a b : ℕ) (s : Store N)
      → contains b ((link_children parent all children s).order_bracket a) ≡ (
          contains b (s.order_bracket a)
          || (contains a children && (contains b all && (if a == b then false else true))))
  unfolding link_children contains update
  link_children-bracket parent all [] a b s = ground arith
  link_children-bracket parent all (child ∷ children) a b s =
      let pointed : Store N = record s {
        order_parent = update s.order_parent child (some parent);
      } in
      ground (
        arith,
        link_children-bracket parent all children a b (link_sibling all child pointed),
        link_sibling-bracket all child a b pointed,
      )

  -- A leg of a bracket with no entry, whose fill is looked at.
  sibling_of :
      (oids : List ℕ) (a b : ℕ) (s : Store N)
      → contains a oids ≡ true
      → contains b oids ≡ true
      → (a == b) ≡ false
      → contains b ((link_mutual oids oids s).order_bracket a) ≡ true
  sibling_of oids a b s ha hb ne =
      link_mutual-bracket oids oids a b s ∙ rw (ha, hb, ne) (ground arith)

  link_two :
      (oids : List ℕ) (a b : ℕ)
      → contains a oids ≡ true
      → contains b oids ≡ true
      → (a == b) ≡ false
      → (s : Store N) → link_bracket position_tpsl oids s ≡ link_mutual oids oids s
  unfolding link_bracket contains
  link_two [] a b ha hb ne s = ground (arith, ha)
  link_two (x ∷ []) a b ha hb ne s = absurd (ground (arith, ha, hb, ne))
  link_two (x ∷ y ∷ more) a b ha hb ne s = refl

  -- After a batch with the grouping `positionTpsl`, when one leg that is no parent fills, every
  -- other leg that is open is cancelled and taken out of the open and the trigger orders.
  pub position_legs_exclude :
      (oids : List ℕ) (a b : ℕ) (user : String) (now : ℕ) (s : Store N) (o : Order N)
      → contains a oids ≡ true
      → contains b oids ≡ true
      → (a == b) ≡ false
      → s.order_children a ≡ []
      → s.orders b ≡ some o
      → is_open o.status ≡ true
      → let t = cancel_order_siblings a user now (link_bracket position_tpsl oids s) in
        (t.orders b ≡ some (as_cancelled now o))
        × (contains b t.orders_open ≡ false)
        × (contains b t.orders_triggers ≡ false)
  position_legs_exclude oids a b user now s o ha hb ne childless found was_open =
      let linked = link_mutual oids oids s in
      rw (link_two oids a b ha hb ne s) (
        (one_cancels_other a user now linked b).0 ((link_mutual-kept oids oids a s).1 ∙ childless)
          (sibling_of oids a b s ha hb ne) o
          (ap (λ (v : View N). v.hash) (link_mutual-kept oids oids b s).0 ∙ found) was_open)
