-- ===== src/Intake/Modify/Carried.antt =====
-- carryBracketLinks of src/engine/order.ts: a replacement takes the place of the old leg of a bracket.
use Prim.Native.String.{String}
use hy_paper.Prelude.{
  ℕ, ◌≡◌, refl, ap, ◌∙◌, true, false, Option, some, List, [], ◌∷◌, arith, ◌==◌, if◌then◌else◌, inl,
  inr, Bool-cases,
}
use hy_paper.Prelude.Maps.{
  nat_keys, sadd, srem, update, update_self, update_ne, contains, contains-sadd, contains-srem,
  beq_refl, beq_ne,
}
use hy_paper.Decimal.{Decimal}
use hy_paper.Orders.{Order, is_open}
use hy_paper.Store.{Store}
use hy_paper.Bracket.{as_cancelled, unlink, cancel_order_siblings}
use hy_paper.Bracket.Siblings.{View, view, one_cancels_other}
use hy_paper.Intake.{resting}
use hy_paper.Intake.Links.Oco.{contains-sadd_all}
use hy_paper.Intake.Modify.{
  swap, swap_child, swap_siblings, inherit_siblings, hand_over, end_children, carry_bracket_links,
  new_oid,
}

contains-swap :
    (old new b : ℕ) (set : List ℕ)
    → contains b (swap old (some new) set)
      ≡ (if new == b then true else if old == b then false else contains b set)
unfolding swap
contains-swap old new b set = contains-sadd new b (srem old set) ∙ rw (contains-srem old b set) refl

module _ {N : Type 0} where
  swap_siblings-bracket :
      (old new : ℕ) (sibs : List ℕ) (a b : ℕ) (s : Store N)
      → contains b ((swap_siblings old (some new) sibs s).order_bracket a) ≡ (
          if contains a sibs
          then if new == b then true else if old == b then false else contains b (s.order_bracket a)
          else contains b (s.order_bracket a))
  unfolding swap_siblings contains update
  swap_siblings-bracket old new [] a b s = refl
  swap_siblings-bracket old new (sib ∷ sibs) a b s =
      let next : Store N = record s {
        order_bracket = update s.order_bracket sib (swap old (some new) (s.order_bracket sib));
      } in
      swap_siblings-bracket old new sibs a b next ∙ elim (Bool-cases (sib == a)) [
        | inl e ↦
            let same : sib ≡ a = (nat_keys.beq_iff sib a).0 e in
            rw (e, contains-swap old new b (s.order_bracket sib), same) (ground (arith, beq_refl a))
        | inr ne ↦ rw ne (ground (arith, beq_ne sib a ne))
      ]

  -- What handing the links over leaves of the orders, the parents and the children.
  swap_siblings-kept :
      (old : ℕ) (new : Option ℕ) (sibs : List ℕ) (j : ℕ) (s : Store N)
      → (view (swap_siblings old new sibs s) j ≡ view s j)
        × ((swap_siblings old new sibs s).order_children j ≡ s.order_children j)
        × ((swap_siblings old new sibs s).order_parent j ≡ s.order_parent j)
  unfolding swap_siblings
  swap_siblings-kept old new [] j s = (refl, refl, refl)
  swap_siblings-kept old new (sib ∷ sibs) j s = swap_siblings-kept old new sibs j _

  -- A child's links after they were handed over to the order `new`.
  pub record HandedOver (old new parent : ℕ) (s t : Store N) : Type 0 where
    pub same_view : (j : ℕ) → view t j ≡ view s j
    pub same_children : (j : ℕ) → (parent == j) ≡ false → t.order_children j ≡ s.order_children j
    pub has_parent : t.order_parent new ≡ some parent
    pub is_child : contains new (t.order_children parent) ≡ true
    pub is_no_child : contains old (t.order_children parent) ≡ false
    pub is_sibling :
        (sib : ℕ)
        → contains sib (s.order_bracket old) ≡ true
        → (sib == new) ≡ false
        → contains new (t.order_bracket sib) ≡ true
    pub has_sibling :
        (sib : ℕ)
        → contains sib (s.order_bracket old) ≡ true
        → contains sib (t.order_bracket new) ≡ true

  hand_over-HandedOver :
      (old new parent : ℕ) (s : Store N)
      → (old == new) ≡ false
      → HandedOver old new parent s (hand_over old (some new) (some parent) (s.order_bracket old) s)
  unfolding hand_over swap_child inherit_siblings unlink
  hand_over-HandedOver old new parent s ne =
      let sibs = s.order_bracket old in
      let swapped = swap_child old (some new) (some parent) (unlink old s) in
      let turned = swap_siblings old (some new) sibs swapped in
      let kept = λ (j : ℕ). swap_siblings-kept old (some new) sibs j swapped in
      let kids : List ℕ = sadd new (srem old (s.order_children parent)) in
      record {
        same_view = λ j. (kept j).0;
        same_children = λ j other. (kept j).1 ∙ update_ne s.order_children parent j kids other;
        has_parent = (kept new).2 ∙ update_self (unlink old s).order_parent new (some parent);
        is_child =
            ap (contains new) ((kept parent).1 ∙ update_self s.order_children parent kids)
            ∙ contains-sadd new new (srem old (s.order_children parent))
            ∙ rw (beq_refl new) refl;
        is_no_child =
            ap (contains old) ((kept parent).1 ∙ update_self s.order_children parent kids)
            ∙ contains-sadd new old (srem old (s.order_children parent))
            ∙ rw (beq_ne old new ne, contains-srem old old (s.order_children parent), beq_refl old)
                refl;
        is_sibling = λ sib mem other.
            ap (contains new) (update_ne turned.order_bracket new sib _ (beq_ne sib new other))
            ∙ swap_siblings-bracket old new sibs sib new swapped
            ∙ rw (mem, beq_refl new) refl;
        has_sibling = λ sib mem.
            ap (contains sib) (update_self turned.order_bracket new _)
            ∙ contains-sadd_all sib sibs (turned.order_bracket new)
            ∙ rw mem (ground arith);
      }

module _ {N : Type 0} ⦃d : Decimal N⦄ where
  carry_childless :
      (fuel : ℕ) (user : String) (now old new parent : ℕ) (cloid : Option String) (s : Store N)
      → s.order_children old ≡ []
      → s.order_parent old ≡ some parent
      → carry_bracket_links fuel user now old (resting new cloid) s
        ≡ some (hand_over old (some new) (some parent) (s.order_bracket old) s)
  unfolding carry_bracket_links end_children new_oid
  carry_childless fuel user now old new parent cloid s childless parented =
      rw (childless, carry_bracket_links, end_children, parented) refl

  -- Let an open sibling `sib` of a child be given, and let the child be modified into an order that rests under
  -- the number `new`. If the child has no children, nor `new` and `sib`, and the parent is neither of them, then the links are
  -- carried over without cancelling anything: `new` is a child of the parent in the place of the old one,
  -- a fill of `sib` cancels `new`, and a fill of `new` cancels `sib`.
  pub carried_leg_stays_in_the_bracket :
      (fuel : ℕ) (user : String) (now old new parent sib : ℕ) (cloid : Option String)
      (o p : Order N) (s : Store N)
      → s.order_children old ≡ []
      → s.order_children new ≡ []
      → s.order_children sib ≡ []
      → s.order_parent old ≡ some parent
      → contains sib (s.order_bracket old) ≡ true
      → (old == new) ≡ false
      → (sib == new) ≡ false
      → (parent == sib) ≡ false
      → (parent == new) ≡ false
      → s.orders new ≡ some o
      → is_open o.status ≡ true
      → s.orders sib ≡ some p
      → is_open p.status ≡ true
      → (t : Store N) × (carry_bracket_links fuel user now old (resting new cloid) s ≡ some t)
        × ((j : ℕ) → view t j ≡ view s j)
        × (t.order_parent new ≡ some parent)
        × (contains new (t.order_children parent) ≡ true)
        × (contains old (t.order_children parent) ≡ false)
        × ((cancel_order_siblings sib user now t).orders new ≡ some (as_cancelled now o))
        × ((cancel_order_siblings new user now t).orders sib ≡ some (as_cancelled now p))
  carried_leg_stays_in_the_bracket fuel user now old new parent sib cloid o p s childless
        new_childless sib_childless parented mem old_new sib_new parent_sib parent_new found_new
        open_new found_sib open_sib =
      let t = hand_over old (some new) (some parent) (s.order_bracket old) s in
      let links = hand_over-HandedOver old new parent s old_new in
      (
        t,
        carry_childless fuel user now old new parent cloid s childless parented,
        links.same_view,
        links.has_parent,
        links.is_child,
        links.is_no_child,
        ((one_cancels_other sib user now t new).0
            (links.same_children sib parent_sib ∙ sib_childless) (links.is_sibling sib mem sib_new)
            o (ap (λ (v : View N). v.hash) (links.same_view new) ∙ found_new) open_new).0,
        ((one_cancels_other new user now t sib).0
            (links.same_children new parent_new ∙ new_childless) (links.has_sibling sib mem) p
            (ap (λ (v : View N). v.hash) (links.same_view sib) ∙ found_sib) open_sib).0,
      )
