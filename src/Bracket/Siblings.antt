-- ===== src/Bracket/Siblings.antt =====
-- One cancels the other: what a fill of src/worker/order-matcher.ts does to the orders linked to it.
use Prim.Native.String.{String}
use hy_paper.Prelude.{
  ℕ, ◌≡◌, refl, ap, ◌∙◌, Bool, true, false, Option, none, some, List, [], ◌∷◌, arith, if◌then◌else◌,
  Bool-cases, Option-cases, inl, inr, ◌==◌, ◌≢◌,
}
use hy_paper.Prelude.Maps.{nat_keys, update, contains, contains-srem}
use hy_paper.Orders.{Order, is_open}
use hy_paper.Store.{Store, terms_of, SameTerms}
use hy_paper.Bracket.{
  as_cancelled, drop_child, unlink, cancel_open, cancel_sibling, cancel_each, orphan_children,
  cancel_siblings_of, cancel_order_siblings,
}

-- What a tick reads of an order: its hash, and whether it is in the sets of resting orders.
pub record View (N : Type 0) : Type 0 where
  pub hash : Option (Order N)
  pub resting : Bool
  pub watched : Bool

module _ {N : Type 0} where
  abbrev pub view : Store N → ℕ → View N
  view s j = record {
    hash = s.orders j;
    resting = contains j s.orders_open;
    watched = contains j s.orders_triggers;
  }

  -- The view of a sibling once it has been looked at.
  pub settled : ℕ → View N → View N
  settled now v = elim v.hash [
    | none ↦ v
    | some o ↦
        if is_open o.status
        then record { hash = some (as_cancelled now o); resting = false; watched = false }
        else v
  ]

  drop_child-view :
      (parent : Option ℕ) (oid j : ℕ) (s : Store N) → view (drop_child parent oid s) j ≡ view s j
  unfolding drop_child
  drop_child-view none oid j s = refl
  drop_child-view (some p) oid j s = elim (Bool-cases (p == 0)) [
    | inl e ↦ rw (e, drop_child)
    | inr e ↦ rw (e, drop_child)
  ]

  cancel_open-view :
      (user : String) (now : ℕ) (parent : Option ℕ) (sib j : ℕ) (o : Order N) (s : Store N)
      → s.orders sib ≡ some o
      → view (cancel_open user now parent sib o s) j ≡ (
          if sib == j
          then record { hash = some (as_cancelled now o); resting = false; watched = false }
          else view s j)
  unfolding cancel_open update
  cancel_open-view user now parent sib j o s e =
      drop_child-view parent sib j _
      ∙ rw (e, contains-srem sib j s.orders_open, contains-srem sib j s.orders_triggers)
          (ground arith)

  cancel_sibling-view :
      (user : String) (now : ℕ) (parent : Option ℕ) (sib j : ℕ) (s : Store N)
      → view (cancel_sibling user now parent sib s) j
        ≡ (if sib == j then settled now (view s j) else view s j)
  unfolding cancel_sibling settled
  cancel_sibling-view user now parent sib j s = elim (Option-cases (s.orders sib)) [
    | inl e ↦ rw (e, cancel_sibling) (ground (arith, e))
    | inr (o, e) ↦ elim (Bool-cases (is_open o.status)) [
      | inl h ↦
          rw (e, cancel_sibling, h)
            (cancel_open-view user now parent sib j o s e ∙ ground (arith, e))
      | inr h ↦ rw (e, cancel_sibling, h) (ground (arith, e))
    ]
  ]

  settled-settled : (now : ℕ) (v : View N) → settled now (settled now v) ≡ settled now v
  unfolding settled as_cancelled
  settled-settled now v = ground arith

  cancel_each-view :
      (user : String) (now : ℕ) (parent : Option ℕ) (sibs : List ℕ) (j : ℕ) (s : Store N)
      → view (cancel_each user now parent sibs s) j
        ≡ (if contains j sibs then settled now (view s j) else view s j)
  unfolding cancel_each contains
  cancel_each-view user now parent [] j s = refl
  cancel_each-view user now parent (sib ∷ sibs) j s =
      cancel_each-view user now parent sibs j (cancel_sibling user now parent sib s)
      ∙ rw (cancel_sibling-view user now parent sib j s)
          (ground (arith, settled-settled now (view s j)))

  orphan_children-view :
      (children : List ℕ) (j : ℕ) (s : Store N) → view (orphan_children children s) j ≡ view s j
  unfolding orphan_children
  orphan_children-view [] j s = refl
  orphan_children-view (c ∷ cs) j s = orphan_children-view cs j _

  abbrev after_fill : ℕ → List ℕ → Bool → View N → View N
  after_fill now [] is_sibling v = if is_sibling then settled now v else v
  after_fill now (_ ∷ _) is_sibling v = v

  after_fill-other :
      (now : ℕ) (children : List ℕ) (b : Bool) (v : View N)
      → b ≡ false
      → after_fill now children b v ≡ v
  after_fill-other now [] b v h = rw h
  after_fill-other now (_ ∷ _) b v h = refl

  after_fill-parent :
      (now : ℕ) (children : List ℕ) (b : Bool) (v : View N)
      → children ≢ []
      → after_fill now children b v ≡ v
  after_fill-parent now [] b v h = absurd (h refl)
  after_fill-parent now (_ ∷ _) b v h = refl

  after_fill-sibling :
      (now : ℕ) (children : List ℕ) (b : Bool) (v : View N) (o : Order N)
      → children ≡ []
      → b ≡ true
      → v.hash ≡ some o
      → is_open o.status ≡ true
      → after_fill now children b v
        ≡ record { hash = some (as_cancelled now o); resting = false; watched = false }
  unfolding settled
  after_fill-sibling now children b v o c h e p = rw (c, h, e, settled, p)

  cancel_siblings_of-view :
      (oid : ℕ) (user : String) (now : ℕ) (children sibs : List ℕ) (j : ℕ) (s : Store N)
      → view (cancel_siblings_of oid user now children sibs s) j
        ≡ after_fill now children (contains j sibs) (view s j)
  unfolding cancel_siblings_of contains
  cancel_siblings_of-view oid user now (c ∷ cs) sibs j s = orphan_children-view (c ∷ cs) j _
  cancel_siblings_of-view oid user now [] [] j s = refl
  cancel_siblings_of-view oid user now [] (sib ∷ sibs) j s =
      cancel_each-view user now (s.order_parent oid) (sib ∷ sibs) j _
      ∙ rw (drop_child-view (s.order_parent oid) oid j (unlink oid s)) refl

  after_fill-terms :
      (now : ℕ) (children : List ℕ) (b : Bool) (v : View N)
      → terms_of (after_fill now children b v).hash ≡ terms_of v.hash
  unfolding settled as_cancelled
  after_fill-terms now (c ∷ cs) b v = refl
  after_fill-terms now [] false v = refl
  after_fill-terms now [] true v = elim (Option-cases v.hash) [
    | inl e ↦ rw (e, settled, e)
    | inr (o, e) ↦ elim (Bool-cases (is_open o.status)) [
      | inl h ↦ rw (e, settled, h)
      | inr h ↦ rw (e, settled, h, e)
    ]
  ]

  pub cancel_order_siblings-terms :
      (oid : ℕ) (user : String) (now : ℕ) (s : Store N)
      → SameTerms s (cancel_order_siblings oid user now s)
  unfolding cancel_order_siblings
  cancel_order_siblings-terms oid user now s j =
      ap (λ v. terms_of v.hash)
        (cancel_siblings_of-view oid user now (s.order_children oid) (s.order_bracket oid) j s)
      ∙ after_fill-terms now (s.order_children oid) (contains j (s.order_bracket oid)) (view s j)

  -- The siblings of an order that fills, if it is no parent, are cancelled and taken out of the resting
  -- and the trigger orders, as far as they are open. Every other order is as it was, and all are where
  -- the order that fills is a parent.
  pub one_cancels_other :
      (oid : ℕ) (user : String) (now : ℕ) (s : Store N) (j : ℕ)
      → let t = cancel_order_siblings oid user now s in
        (s.order_children oid ≡ []
          → contains j (s.order_bracket oid) ≡ true
          → (o : Order N) → s.orders j ≡ some o
          → is_open o.status ≡ true
          → (t.orders j ≡ some (as_cancelled now o))
            × (contains j t.orders_open ≡ false)
            × (contains j t.orders_triggers ≡ false))
        × (contains j (s.order_bracket oid) ≡ false → view t j ≡ view s j)
        × (s.order_children oid ≢ [] → view t j ≡ view s j)
  unfolding cancel_order_siblings settled
  one_cancels_other oid user now s j =
      let seen =
        cancel_siblings_of-view oid user now (s.order_children oid) (s.order_bracket oid) j s in
      (
        λ c h o e p.
            let same = seen ∙ after_fill-sibling now _ _ (view s j) o c h e p in
            (ap (λ v. v.hash) same, ap (λ v. v.resting) same, ap (λ v. v.watched) same),
        λ h. seen ∙ after_fill-other now _ _ (view s j) h,
        λ c. seen ∙ after_fill-parent now _ _ (view s j) c,
      )
