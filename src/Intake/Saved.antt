-- ===== src/Intake/Saved.antt =====
-- What saving and listing an order leaves, in src/engine/order.ts.
use Prim.Native.String.{String}
use text.Mathlib.Text.{◌==◌ as str_eq}
use hy_paper.Prelude.{
  ℕ, ◌≡◌, refl, sym, ap, ◌∙◌, true, Option, none, some, List, inl, inr, Bool-cases,
}
use hy_paper.Prelude.Maps.{
  nat_keys, string_keys, pair_keys, sadd, update, beq_refl, contains, contains-sadd, update_self,
}
use hy_paper.Orders.{Order}
use hy_paper.Store.{Store, holdings, SameHoldings}
use mathlib.Core.Path.{subst}
use hy_paper.Intake.{
  stored_cloid, IntakeEnv, IntakeState, map_cloid, expire, save_order, list_order, announce_open,
  rest_order,
}

-- What a matcher reads of the orders.
pub record MatcherView (N : Type 0) : Type 0 where
  pub orders : ℕ → Option (Order N)
  pub orders_open : List ℕ
  pub orders_triggers : List ℕ
  pub orders_trailing : List ℕ

module _ {N : Type 0} where
  abbrev pub view_of_matcher : Store N → MatcherView N
  view_of_matcher s = record {
    orders = s.orders;
    orders_open = s.orders_open;
    orders_triggers = s.orders_triggers;
    orders_trailing = s.orders_trailing;
  }

  map_cloid-store :
      (user : String) (cloid : Option String) (oid : ℕ) (st : IntakeState N)
      → (map_cloid user cloid oid st).store ≡ st.store
  unfolding map_cloid
  map_cloid-store user none oid st = refl
  map_cloid-store user (some cloid) oid st = elim (Bool-cases (str_eq cloid "")) [
    | inl e ↦ rw (e, map_cloid) refl
    | inr e ↦ rw (e, map_cloid) refl
  ]

  expire-view :
      (at : Option ℕ) (oid : ℕ) (s : Store N)
      → view_of_matcher (expire at oid s) ≡ view_of_matcher s
  unfolding expire
  expire-view none oid s = refl
  expire-view (some at) oid s = refl

  expire-holdings : (at : Option ℕ) (oid : ℕ) (s : Store N) → SameHoldings s (expire at oid s)
  unfolding expire
  expire-holdings none oid s = refl
  expire-holdings (some at) oid s = refl

  -- The hash of an order as it is saved.
  abbrev pub hashed : Order N → Order N
  hashed o = record o { twap_id = none; cloid = stored_cloid o.cloid }

  pub save_order-view :
      (o : Order N) (at : Option ℕ) (st : IntakeState N)
      → view_of_matcher (save_order o at st).store ≡ record (view_of_matcher st.store) {
        orders = update st.store.orders o.oid (some (hashed o));
      }
  unfolding save_order
  save_order-view o at st =
      ap view_of_matcher (map_cloid-store o.user_id o.cloid o.oid _) ∙ expire-view at o.oid _

  pub save_order-holdings :
      (o : Order N) (at : Option ℕ) (st : IntakeState N)
      → SameHoldings st.store (save_order o at st).store
  unfolding save_order
  save_order-holdings o at st =
      ap holdings (map_cloid-store o.user_id o.cloid o.oid _) ∙ expire-holdings at o.oid _

  pub save_order_self :
      (o : Order N) (at : Option ℕ) (st : IntakeState N)
      → (save_order o at st).store.orders o.oid ≡ some (hashed o)
  unfolding update
  save_order_self o at st =
      ap (λ (v : MatcherView N). v.orders o.oid) (save_order-view o at st)
      ∙ rw (beq_refl o.oid) refl

  pub rest_order-view :
      (ie : IntakeEnv N) (o : Order N) (st : IntakeState N)
      → view_of_matcher (rest_order ie o st).store
        ≡ record (view_of_matcher st.store) { orders_open = sadd o.oid st.store.orders_open }
  unfolding rest_order list_order announce_open
  rest_order-view ie o st = refl

  pub rest_order-holdings :
      (ie : IntakeEnv N) (o : Order N) (st : IntakeState N)
      → SameHoldings st.store (rest_order ie o st).store
  unfolding rest_order list_order announce_open
  rest_order-holdings ie o st = refl

  -- The set of deadlines holds the order with its deadline, if it has one.
  abbrev pub Expires : Option ℕ → ℕ → Store N → Type 0
  Expires none oid s = Unit {0}
  Expires (some at) oid s = (contains oid s.orders_expiry ≡ true) × (s.expiry_at oid ≡ at)

  expire-Expires : (at : Option ℕ) (oid : ℕ) (s : Store N) → Expires at oid (expire at oid s)
  unfolding expire
  expire-Expires none oid s = tt
  expire-Expires (some at) oid s = (
    contains-sadd oid oid s.orders_expiry ∙ rw (beq_refl oid) refl,
    update_self s.expiry_at oid at,
  )

  pub save_order-Expires :
      (o : Order N) (at : Option ℕ) (st : IntakeState N)
      → Expires at o.oid (save_order o at st).store
  unfolding save_order
  save_order-Expires o at st =
      subst (Expires at o.oid) (sym (map_cloid-store o.user_id o.cloid o.oid _))
        (expire-Expires at o.oid _)

  pub rest_order-Expires :
      (ie : IntakeEnv N) (at : Option ℕ) (oid : ℕ) (o : Order N) (st : IntakeState N)
      → Expires at oid st.store
      → Expires at oid (rest_order ie o st).store
  unfolding rest_order list_order announce_open
  rest_order-Expires ie none oid o st h = h
  rest_order-Expires ie (some at) oid o st h = h
