-- ===== src/Expiry/Children.antt =====
-- The children of a bracket's entry when sweepExpired of src/worker/order-matcher.ts cancels the entry.
use hy_paper.Prelude.{ℕ, ◌≡◌, refl, ap, ◌∙◌, true, false, some, List, [], ◌∷◌, leb, arith}
use hy_paper.Prelude.Maps.{nat_keys, contains}
use hy_paper.Decimal.{Decimal}
use hy_paper.Orders.{Order, is_open}
use hy_paper.Store.{Store, set_order, emit}
use hy_paper.Bracket.{as_cancelled}
use hy_paper.Ticks.{is_dormant}
use hy_paper.Expiry.{
  drop_expiry, due_at, log_expired, expire_open, sweep_order, sweep_each, sweep_expired,
}
use hy_paper.Expiry.Swept.{Entry, entry, sweep_expired-entry}

module _ {N : Type 0} ⦃d : Decimal N⦄ where
  sweep_order-order_parent :
      (now oid : ℕ) (s : Store N) → (sweep_order now oid s).order_parent ≡ s.order_parent
  unfolding sweep_order drop_expiry expire_open log_expired set_order emit
  sweep_order-order_parent now oid s = ground arith

  sweep_each-order_parent :
      (now : ℕ) (oids : List ℕ) (s : Store N)
      → (sweep_each now oids s).order_parent ≡ s.order_parent
  unfolding sweep_each
  sweep_each-order_parent now [] s = refl
  sweep_each-order_parent now (oid ∷ oids) s =
      sweep_each-order_parent now oids (sweep_order now oid s) ∙ sweep_order-order_parent now oid s

  -- The entry of a bracket is open and its deadline has passed, and a child of it is open and has no deadline.
  -- The sweep cancels the entry, and it leaves the child open in its set and awake, where it slept before.
  pub expired_entry_wakes_child :
      (now p c : ℕ) (entry_order child : Order N) (s : Store N)
      → s.order_parent c ≡ some p
      → s.orders p ≡ some entry_order
      → is_open entry_order.status ≡ true
      → contains p s.orders_expiry ≡ true
      → leb (s.expiry_at p) now ≡ true
      → s.orders c ≡ some child
      → contains c s.orders_triggers ≡ true
      → contains c s.orders_expiry ≡ false
      → let t = sweep_expired now s in
        (is_dormant c s ≡ true)
        × (t.orders p ≡ some (as_cancelled now entry_order))
        × (t.orders c ≡ some child)
        × (contains c t.orders_triggers ≡ true)
        × (is_dormant c t ≡ false)
  unfolding is_dormant sweep_expired as_cancelled
  expired_entry_wakes_child now p c o child s parent found live listed past held watched kept =
      let swept = (sweep_expired-entry now s).0 in
      let at_p : (sweep_expired now s).orders p ≡ some (as_cancelled now o) =
        ap (λ (e : Entry N). e.order) (swept p) ∙ rw (listed, past, found, live) refl in
      let at_c : entry (sweep_expired now s) c ≡ entry s c = swept c ∙ rw kept refl in
      let same = sweep_each-order_parent now (due_at s.expiry_at now s.orders_expiry) s in
      (
        rw (parent, is_dormant, found) live,
        at_p,
        ap (λ (e : Entry N). e.order) at_c ∙ held,
        ap (λ (e : Entry N). e.in_triggers) at_c ∙ watched,
        rw (same, is_dormant, parent, at_p) refl,
      )
