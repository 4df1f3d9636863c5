-- ===== src/Orphans/Reconcile.antt =====
-- What `reconcileReduceOnlyStops` of src/engine/trailing-state.ts leaves behind.
pub mod Stranded
use Prim.Native.String.{String}
use hy_paper.Prelude.{
  ℕ, ◌≡◌, refl, sym, ap, ◌∙◌, Bool, true, false, Option, none, some, List, [], ◌∷◌, arith,
  if◌then◌else◌, Bool-cases, Option-cases, inl, inr, ◌==◌,
}
use hy_paper.Prelude.Maps.{nat_keys, update, contains, contains-srem, beq_refl}
use hy_paper.Decimal.{Decimal}
use hy_paper.Orders.{Order, OrderStatus, reduce_only_canceled, is_open}
use hy_paper.Store.{Store, SameHoldings, terms_of, SameTerms}
use hy_paper.Orphans.{
  ended, end_stop, terminate_trailing_stop, is_orphan, reconcile_one, reconcile_each,
  reconcile_reduce_only_stops,
}

module _ {N : Type 0} ⦃d : Decimal N⦄ where
  pub end_stop-holdings :
      (oid : ℕ) (o : Order N) (st : OrderStatus) (at : ℕ) (e a : Bool) (s : Store N)
      → SameHoldings s (end_stop oid o st at e a s)
  unfolding end_stop
  end_stop-holdings oid o st at true true s = refl
  end_stop-holdings oid o st at true false s = refl
  end_stop-holdings oid o st at false true s = refl
  end_stop-holdings oid o st at false false s = refl

  pub end_stop-orders :
      (oid j : ℕ) (o : Order N) (st : OrderStatus) (at : ℕ) (e a : Bool) (s : Store N)
      → s.orders oid ≡ some o
      → (end_stop oid o st at e a s).orders j
        ≡ (if oid == j then some (ended st at o) else s.orders j)
  unfolding end_stop update
  end_stop-orders oid j o st at true true s h = rw h
  end_stop-orders oid j o st at true false s h = rw h
  end_stop-orders oid j o st at false true s h = rw h
  end_stop-orders oid j o st at false false s h = rw h

  pub end_stop-trailing :
      (oid : ℕ) (o : Order N) (st : OrderStatus) (at : ℕ) (s : Store N)
      → contains oid (end_stop oid o st at true true s).orders_trailing ≡ false
  unfolding end_stop
  end_stop-trailing oid o st at s = contains-srem oid oid s.orders_trailing ∙ rw (beq_refl oid) refl

  pub terminate-open :
      (oid : ℕ) (o : Order N) (st : OrderStatus) (at : ℕ) (e a : Bool) (s : Store N)
      → s.orders oid ≡ some o
      → is_open o.status ≡ true
      → (terminate_trailing_stop oid st at e a s).1 ≡ end_stop oid o st at e a s
  unfolding terminate_trailing_stop
  terminate-open oid o st at e a s h live = rw (h, terminate_trailing_stop, live) refl

  pub terminate-holdings :
      (oid : ℕ) (st : OrderStatus) (at : ℕ) (e a : Bool) (s : Store N)
      → SameHoldings s (terminate_trailing_stop oid st at e a s).1
  unfolding terminate_trailing_stop
  terminate-holdings oid st at e a s = elim (Option-cases (s.orders oid)) [
    | inl h ↦ rw (h, terminate_trailing_stop) refl
    | inr (o, h) ↦ elim (Bool-cases (is_open o.status)) [
      | inl live ↦ rw (h, terminate_trailing_stop, live) (end_stop-holdings oid o st at e a s)
      | inr over ↦ rw (h, terminate_trailing_stop, over) refl
    ]
  ]

  pub is_orphan-is_open :
      (user : String) (asset : ℕ) (new_szi : N) (o : Order N)
      → is_orphan user asset new_szi o ≡ true
      → is_open o.status ≡ true
  unfolding is_orphan
  is_orphan-is_open user asset new_szi o h = ground arith

  reconcile_one-holdings :
      (user : String) (asset : ℕ) (new_szi : N) (at oid : ℕ) (s : Store N)
      → SameHoldings s (reconcile_one user asset new_szi at oid s).1
  unfolding reconcile_one
  reconcile_one-holdings user asset new_szi at oid s = elim (Option-cases (s.orders oid)) [
    | inl e ↦ rw (e, reconcile_one) refl
    | inr (o, e) ↦
        let ends = end_stop-holdings oid o reduce_only_canceled at false false s in ground arith
  ]

  module _ (user : String) (asset : ℕ) (new_szi : N) (at : ℕ) where
    -- The hash of an order after the reconciliation has looked at it.
    pub settled : Option (Order N) → Option (Order N)
    settled none = none
    settled (some o) =
        if is_orphan user asset new_szi o then some (ended reduce_only_canceled at o) else some o

    pub settled-settled : (o : Option (Order N)) → settled (settled o) ≡ settled o
    unfolding settled is_orphan ended
    settled-settled none = refl
    settled-settled (some o) = ground arith

    pub reconcile_one-orders :
        (oid j : ℕ) (s : Store N)
        → (reconcile_one user asset new_szi at oid s).1.orders j
          ≡ (if oid == j then settled (s.orders j) else s.orders j)
    unfolding reconcile_one settled
    reconcile_one-orders oid j s = elim (Option-cases (s.orders oid)) [
      | inl e ↦ rw (e, reconcile_one) (ground arith)
      | inr (o, e) ↦ elim (Bool-cases (is_orphan user asset new_szi o)) [
        | inl h ↦
            rw
              (
                e,
                reconcile_one,
                h,
                e,
                terminate_trailing_stop,
                is_orphan-is_open user asset new_szi o h,
              )
              (end_stop-orders oid j o reduce_only_canceled at false false s e ∙ ground (arith, e))
        | inr h ↦ rw (e, reconcile_one, h) (ground (arith, e))
      ]
    ]

    -- After the whole pass.
    pub reconcile_each-orders :
        (oids : List ℕ) (j : ℕ) (s : Store N)
        → (reconcile_each user asset new_szi at oids s).1.orders j
          ≡ (if contains j oids then settled (s.orders j) else s.orders j)
    unfolding reconcile_each contains
    reconcile_each-orders [] j s = refl
    reconcile_each-orders (oid ∷ oids) j s = ground (
      arith,
      reconcile_one-orders oid j s,
      reconcile_each-orders oids j (reconcile_one user asset new_szi at oid s).1,
      settled-settled (s.orders j),
    )

    reconcile_each-holdings :
        (oids : List ℕ) (s : Store N)
        → SameHoldings s (reconcile_each user asset new_szi at oids s).1
    unfolding reconcile_each
    reconcile_each-holdings [] s = refl
    reconcile_each-holdings (oid ∷ oids) s =
        reconcile_each-holdings oids _ ∙ reconcile_one-holdings user asset new_szi at oid s

    pub reconcile-holdings :
        (s : Store N) → SameHoldings s (reconcile_reduce_only_stops user asset new_szi at s).1
    unfolding reconcile_reduce_only_stops
    reconcile-holdings s = reconcile_each-holdings s.orders_trailing s

    settled-terms : (o : Option (Order N)) → terms_of (settled o) ≡ terms_of o
    unfolding settled ended
    settled-terms none = refl
    settled-terms (some o) = elim (Bool-cases (is_orphan user asset new_szi o)) [
      | inl h ↦ rw h
      | inr h ↦ rw h
    ]

    pub reconcile-terms :
        (s : Store N) → SameTerms s (reconcile_reduce_only_stops user asset new_szi at s).1
    unfolding reconcile_reduce_only_stops
    reconcile-terms s j =
        ap terms_of (reconcile_each-orders s.orders_trailing j s)
        ∙ (elim (Bool-cases (contains j s.orders_trailing)) [
          | inl h ↦ rw h (settled-terms (s.orders j))
          | inr h ↦ rw h
        ])
