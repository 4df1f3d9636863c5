-- ===== src/Orphans/Reconcile/Stranded.antt =====
-- The whole state after `reconcileReduceOnlyStops` of src/engine/trailing-state.ts.
use Prim.Native.String.{String}
use hy_paper.Prelude.{
  ℕ, ◌≡◌, refl, ◌∙◌, Bool, true, false, not, ◌&&◌, Option, none, some, List, [], ◌∷◌, arith,
  if◌then◌else◌, Bool-cases, Option-cases, inl, inr, ◌==◌, ◌⊎◌,
}
use hy_paper.Prelude.Maps.{nat_keys, string_keys, contains, srem, contains-srem}
use hy_paper.Decimal.{Decimal, num, gt, lt}
use hy_paper.Decimal.Order.{IsOrdered}
use hy_paper.Orders.{Order, reduce_only_canceled, is_open}
use hy_paper.Store.{Store}
use hy_paper.Orphans.{
  ended, end_stop, can_reduce, is_orphan, reconcile_one, reconcile_each,
  reconcile_reduce_only_stops,
}
use hy_paper.Orphans.Reconcile.{
  settled, reconcile_one-orders, reconcile_each-orders, is_orphan-is_open, terminate-open,
}

module _ {N : Type 0} ⦃d : Decimal N⦄ where
  -- A buy closes a short position, a sell a long one.
  abbrev pub closes : Bool → N → Bool
  closes true szi = lt szi (num 0)
  closes false szi = gt szi (num 0)

  -- An open reduce-only order of the user on the asset that has nothing of the position to close.
  pub record IsStranded (user : String) (asset : ℕ) (szi : N) (o : Order N) : Type 0 where
    pub live : is_open o.status ≡ true
    pub owner : o.user_id ≡ user
    pub market : o.asset ≡ asset
    pub reduces : o.reduce_only ≡ true
    pub stuck : closes o.is_buy szi ≡ false

  -- The state without the orders, the sets that list them and the events.
  abbrev pub apart_from_orders : Store N → Store N
  apart_from_orders s = record s {
    orders = λ oid. none;
    orders_open = [];
    orders_triggers = [];
    orders_trailing = [];
    orders_expiry = [];
    events = [];
  }

  -- An order has the same hash and stands in the same sets.
  abbrev pub SameOrder : ℕ → Store N → Store N → Type 0
  SameOrder oid s t =
      (t.orders oid ≡ s.orders oid)
      × (contains oid t.orders_trailing ≡ contains oid s.orders_trailing)
      × (contains oid t.orders_open ≡ contains oid s.orders_open)
      × (contains oid t.orders_triggers ≡ contains oid s.orders_triggers)
      × (contains oid t.orders_expiry ≡ contains oid s.orders_expiry)

  -- An order has ended as `reduceOnlyCanceled`, with its live body frozen, and stands in no set.
  abbrev pub HasEnded : ℕ → ℕ → Order N → Store N → Type 0
  HasEnded at oid o t =
      (t.orders oid ≡ some (ended reduce_only_canceled at o))
      × (contains oid t.orders_trailing ≡ false)
      × (contains oid t.orders_open ≡ false)
      × (contains oid t.orders_triggers ≡ false)
      × (contains oid t.orders_expiry ≡ false)

  can_reduce-closes :
      (laws : IsOrdered N) (szi : N) (is_buy : Bool) → can_reduce szi is_buy ≡ closes is_buy szi
  unfolding can_reduce
  can_reduce-closes laws szi true = ground (arith, laws.lte_total szi (num 0))
  can_reduce-closes laws szi false = ground (arith, laws.lte_total szi (num 0))

  module _ (user : String) (asset : ℕ) (szi : N) (at : ℕ) where
    stranded : Option (Order N) → Bool
    stranded none = false
    stranded (some o) = is_orphan user asset szi o

    stranded-settled : (o : Option (Order N)) → stranded (settled user asset szi at o) ≡ false
    unfolding stranded settled is_orphan ended
    stranded-settled none = refl
    stranded-settled (some o) = ground arith

    -- One round of the loop: nothing, or the writes of `terminateTrailingStop`.
    one-cases :
        (oid : ℕ) (s : Store N)
        → ((stranded (s.orders oid) ≡ false) × ((reconcile_one user asset szi at oid s).1 ≡ s))
          ⊎ ((o : Order N) × (stranded (s.orders oid) ≡ true)
              × ((reconcile_one user asset szi at oid s).1
                  ≡ end_stop oid o reduce_only_canceled at false false s))
    unfolding reconcile_one stranded
    one-cases oid s = elim (Option-cases (s.orders oid)) [
      | inl e ↦ inl (rw e refl, rw (e, reconcile_one) refl)
      | inr (o, e) ↦ elim (Bool-cases (is_orphan user asset szi o)) [
        | inl h ↦ inr (
          o,
          rw e h,
          rw (e, reconcile_one, h)
              (terminate-open oid o reduce_only_canceled at false false s e
                (is_orphan-is_open user asset szi o h)),
        )
        | inr h ↦ inl (rw e h, rw (e, reconcile_one, h) refl)
      ]
    ]

    one-apart :
        (oid : ℕ) (s : Store N)
        → apart_from_orders (reconcile_one user asset szi at oid s).1 ≡ apart_from_orders s
    unfolding end_stop
    one-apart oid s = elim (one-cases oid s) [
      | inl (live, e) ↦ rw e refl
      | inr (o, ends, e) ↦ rw e refl
    ]

    each-apart :
        (oids : List ℕ) (s : Store N)
        → apart_from_orders (reconcile_each user asset szi at oids s).1 ≡ apart_from_orders s
    unfolding reconcile_each
    each-apart [] s = refl
    each-apart (oid ∷ oids) s = each-apart oids _ ∙ one-apart oid s

    -- A set that a stop leaves when it ends.
    module _ (f : Store N → List ℕ)
        (drops : (oid : ℕ) (o : Order N) (s : Store N)
          → f (end_stop oid o reduce_only_canceled at false false s) ≡ srem oid (f s)) where
      one-contains :
          (oid j : ℕ) (s : Store N)
          → contains j (f (reconcile_one user asset szi at oid s).1)
            ≡ (contains j (f s) && not ((oid == j) && stranded (s.orders j)))
      one-contains oid j s = elim (one-cases oid s) [
        | inl (live, e) ↦ rw e (ground (arith, live))
        | inr (o, ends, e) ↦ rw (e, drops oid o s, contains-srem oid j (f s)) (ground (arith, ends))
      ]

      each-contains :
          (oids : List ℕ) (j : ℕ) (s : Store N)
          → contains j (f (reconcile_each user asset szi at oids s).1)
            ≡ (contains j (f s) && not (contains j oids && stranded (s.orders j)))
      unfolding reconcile_each contains
      each-contains [] j s = ground arith
      each-contains (oid ∷ oids) j s = ground (
        arith,
        each-contains oids j (reconcile_one user asset szi at oid s).1,
        one-contains oid j s,
        reconcile_one-orders user asset szi at oid j s,
        stranded-settled (s.orders j),
      )

    module _ (laws : IsOrdered N) where
      orphan-IsStranded :
          (o : Order N) → is_orphan user asset szi o ≡ true → IsStranded user asset szi o
      unfolding is_orphan
      orphan-IsStranded o h = record {
        live = ground arith;
        owner = ground (arith, string_keys.beq_iff o.user_id user);
        market = ground arith;
        reduces = ground arith;
        stuck = ground (arith, can_reduce-closes laws szi o.is_buy);
      }

      IsStranded-orphan :
          (o : Order N) → IsStranded user asset szi o → is_orphan user asset szi o ≡ true
      unfolding is_orphan
      IsStranded-orphan o h = ground (
        arith,
        h.live,
        (string_keys.beq_iff o.user_id user).1 h.owner,
        h.market,
        h.reduces,
        can_reduce-closes laws szi o.is_buy,
        h.stuck,
      )

      not_stranded :
          (x : Option (Order N))
          → ((o : Order N) → x ≡ some o → ¬ IsStranded user asset szi o)
          → stranded x ≡ false
      unfolding stranded
      not_stranded none h = refl
      not_stranded (some o) h = elim (Bool-cases (is_orphan user asset szi o)) [
        | inl e ↦ absurd (h o refl (orphan-IsStranded o e))
        | inr e ↦ e
      ]

      module _ (s : Store N) where
        reconciled : Store N
        reconciled = (reconcile_reduce_only_stops user asset szi at s).1

        -- The hash and the sets of an order after the pass, by whether it is stranded.
        leaves :
            (oid : ℕ) (hit : Bool)
            → (contains oid s.orders_trailing && stranded (s.orders oid)) ≡ hit
            → (reconciled.orders oid
                ≡ (if hit then settled user asset szi at (s.orders oid) else s.orders oid))
              × (contains oid reconciled.orders_trailing
                  ≡ (contains oid s.orders_trailing && not hit))
              × (contains oid reconciled.orders_open ≡ (contains oid s.orders_open && not hit))
              × (contains oid reconciled.orders_triggers
                  ≡ (contains oid s.orders_triggers && not hit))
              × (contains oid reconciled.orders_expiry ≡ (contains oid s.orders_expiry && not hit))
        unfolding reconciled reconcile_reduce_only_stops end_stop stranded settled
        leaves oid hit h = (
          reconcile_each-orders user asset szi at s.orders_trailing oid s ∙ ground arith,
          rw (← h) (each-contains (λ s'. s'.orders_trailing) (λ i o s'. refl) _ oid s),
          rw (← h) (each-contains (λ s'. s'.orders_open) (λ i o s'. refl) _ oid s),
          rw (← h) (each-contains (λ s'. s'.orders_triggers) (λ i o s'. refl) _ oid s),
          rw (← h) (each-contains (λ s'. s'.orders_expiry) (λ i o s'. refl) _ oid s),
        )

        stranded_ends :
            (oid : ℕ) (o : Order N)
            → contains oid s.orders_trailing ≡ true
            → s.orders oid ≡ some o
            → IsStranded user asset szi o
            → HasEnded at oid o reconciled
        unfolding stranded settled
        stranded_ends oid o listed e h =
            let orphan = IsStranded-orphan o h in
            let (hash, trailing, resting, triggers, expiry) =
              leaves oid true (rw (listed, e) orphan) in
            (
              hash ∙ rw (e, settled, orphan) refl,
              ground arith,
              ground arith,
              ground arith,
              ground arith,
            )

        other_stays :
            (oid : ℕ)
            → (contains oid s.orders_trailing ≡ true
                → (o : Order N) → s.orders oid ≡ some o
                → ¬ IsStranded user asset szi o)
            → SameOrder oid s reconciled
        other_stays oid h =
            let untouched : (contains oid s.orders_trailing && stranded (s.orders oid)) ≡ false =
              elim (Bool-cases (contains oid s.orders_trailing)) [
                | inl listed ↦ rw listed (not_stranded (s.orders oid) (h listed))
                | inr apart ↦ rw apart refl
              ] in
            let (hash, trailing, resting, triggers, expiry) = leaves oid false untouched in
            (hash, ground arith, ground arith, ground arith, ground arith)

        -- After a position change to a size: each indexed stop that was stranded, that is, open,
        -- reduce-only, of the user and the asset and with nothing left to close (a buy closes a short
        -- position, a sell a long one), has ended as `reduceOnlyCanceled` and stands in none of the sets of
        -- orders. Every other order has the same hash and stands in the same sets, and the rest of the
        -- state but the queue of events is as it was: positions, balances, fills, links and deadlines.
        pub reconcile_leaves_no_orphan :
            let t = (reconcile_reduce_only_stops user asset szi at s).1 in
            ((oid : ℕ) (o : Order N)
              → contains oid s.orders_trailing ≡ true
              → s.orders oid ≡ some o
              → IsStranded user asset szi o
              → HasEnded at oid o t)
            × ((oid : ℕ)
                → (contains oid s.orders_trailing ≡ true
                    → (o : Order N) → s.orders oid ≡ some o
                    → ¬ IsStranded user asset szi o)
                → SameOrder oid s t)
            × (apart_from_orders t ≡ apart_from_orders s)
        unfolding reconcile_reduce_only_stops reconciled
        reconcile_leaves_no_orphan = (stranded_ends, other_stays, each-apart s.orders_trailing s)
