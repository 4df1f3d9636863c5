-- ===== src/Expiry/Swept.antt =====
-- Exactly what sweepExpired of src/worker/order-matcher.ts changes.
use hy_paper.Prelude.{
  ℕ, ◌≡◌, refl, ◌∙◌, Bool, false, ◌&&◌, Option, none, some, List, [], ◌∷◌, inl, inr, ◌==◌, leb,
  Bool-cases, if◌then◌else◌, arith, ==_iff,
}
use hy_paper.Prelude.Maps.{nat_keys, contains, contains-srem, update}
use hy_paper.Decimal.{Decimal}
use hy_paper.Orders.{Order, is_open}
use hy_paper.Store.{Store, holdings, SameHoldings, set_order, emit}
use hy_paper.Bracket.{as_cancelled}
use hy_paper.Expiry.{
  drop_expiry, due_at, log_expired, expire_open, sweep_order, sweep_each, sweep_expired,
}

-- What a sweep may change of one order.
pub record Entry (N : Type 0) : Type 0 where
  pub order : Option (Order N)
  pub in_open : Bool
  pub in_triggers : Bool
  pub in_trailing : Bool
  pub in_expiry : Bool

contains-due_at :
    (score : ℕ → ℕ) (now j : ℕ) (oids : List ℕ)
    → contains j (due_at score now oids) ≡ (contains j oids && leb (score j) now)
unfolding contains due_at
contains-due_at score now j [] = refl
contains-due_at score now j (oid ∷ oids) = elim (Bool-cases (j == oid)) [
  | inl same ↦
      let e = (==_iff j oid).0 same in rw e (ground (arith, contains-due_at score now oid oids))
  | inr other ↦ ground (arith, other, contains-due_at score now j oids)
]

module _ {N : Type 0} where
  abbrev pub entry : Store N → ℕ → Entry N
  entry s oid = record {
    order = s.orders oid;
    in_open = contains oid s.orders_open;
    in_triggers = contains oid s.orders_triggers;
    in_trailing = contains oid s.orders_trailing;
    in_expiry = contains oid s.orders_expiry;
  }

  -- An open order is cancelled and taken out of every set, any other out of that of the deadlines.
  abbrev pub expired : ℕ → Entry N → Entry N
  expired now e = elim e.order [
    | none ↦ record e { in_expiry = false }
    | some o ↦
        if is_open o.status
        then record {
          order = some (as_cancelled now o);
          in_open = false;
          in_triggers = false;
          in_trailing = false;
          in_expiry = false;
        }
        else record e { in_expiry = false }
  ]

module _ {N : Type 0} ⦃d : Decimal N⦄ where
  sweep_order-entry :
      (now oid j : ℕ) (s : Store N)
      → entry (sweep_order now oid s) j ≡ (if oid == j then expired now (entry s j) else entry s j)
  unfolding sweep_order drop_expiry expire_open set_order update emit as_cancelled
  sweep_order-entry now oid j s = ground (
    arith,
    contains-srem oid j s.orders_open,
    contains-srem oid j s.orders_triggers,
    contains-srem oid j s.orders_trailing,
    contains-srem oid j s.orders_expiry,
  )

  expired_twice : (now : ℕ) (e : Entry N) → expired now (expired now e) ≡ expired now e
  unfolding as_cancelled
  expired_twice now e = ground arith

  sweep_each-entry :
      (now : ℕ) (oids : List ℕ) (j : ℕ) (s : Store N)
      → entry (sweep_each now oids s) j
        ≡ (if contains j oids then expired now (entry s j) else entry s j)
  unfolding sweep_each contains
  sweep_each-entry now [] j s = refl
  sweep_each-entry now (oid ∷ oids) j s = ground (
    arith,
    sweep_each-entry now oids j (sweep_order now oid s),
    sweep_order-entry now oid j s,
    expired_twice now (entry s j),
    ==_iff oid j,
    ==_iff j oid,
  )

  sweep_order-holdings : (now oid : ℕ) (s : Store N) → holdings (sweep_order now oid s) ≡ holdings s
  unfolding sweep_order drop_expiry expire_open log_expired set_order emit
  sweep_order-holdings now oid s = ground arith

  sweep_each-holdings :
      (now : ℕ) (oids : List ℕ) (s : Store N) → SameHoldings s (sweep_each now oids s)
  unfolding sweep_each
  sweep_each-holdings now [] s = refl
  sweep_each-holdings now (oid ∷ oids) s =
      sweep_each-holdings now oids (sweep_order now oid s) ∙ sweep_order-holdings now oid s

  -- A sweep acts exactly on the numbers in the set of the deadlines whose deadline is now or past: there, an
  -- order that is open is cancelled at this time and leaves the sets of every matcher and of the deadlines,
  -- and any other only leaves the set of the deadlines. All else of orders and sets, and every position,
  -- balance and fill, stays as it was.
  pub sweep_expired-entry :
      (now : ℕ) (s : Store N)
      → ((j : ℕ)
          → entry (sweep_expired now s) j ≡ (
              if contains j s.orders_expiry && leb (s.expiry_at j) now
              then expired now (entry s j)
              else entry s j))
        × SameHoldings s (sweep_expired now s)
  unfolding sweep_expired
  sweep_expired-entry now s =
      let due = due_at s.expiry_at now s.orders_expiry in
      (
        λ j.
            sweep_each-entry now due j s
            ∙ rw (contains-due_at s.expiry_at now j s.orders_expiry) refl,
        sweep_each-holdings now due s,
      )
