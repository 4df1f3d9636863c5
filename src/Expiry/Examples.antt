-- ===== src/Expiry/Examples.antt =====
-- The sweep of src/worker/order-matcher.ts on test data: an entry, number 7, past its deadline, and its child 8.
use hy_paper.Prelude.{
  ℕ, ◌≡◌, refl, false, true, none, some, [], ◌∷◌, ◌==◌, leb, ◌&&◌, if◌then◌else◌,
}
use hy_paper.Prelude.Int.{ℤ, pos}
use hy_paper.Prelude.Maps.{nat_keys, string_keys, pair_keys, contains}
use hy_paper.Decimal.Integers.{integers}
use hy_paper.Orders.{Order}
use hy_paper.Store.{Store, SameHoldings}
use hy_paper.Bracket.{as_cancelled}
use hy_paper.Ticks.{is_dormant}
use hy_paper.Expiry.{sweep_expired}
use hy_paper.Expiry.Swept.{entry, expired, sweep_expired-entry}
use hy_paper.Expiry.Children.{expired_entry_wakes_child}
use hy_paper.Samples.{sample_order, sample_position, sample_store}

abbrev numbered : ℕ → Order ℤ
numbered n = record (sample_order true 2 120) { oid = n }

abbrev store : Store ℤ
store =
    let s = sample_store (sample_position (pos 2) (pos 100)) (numbered 7) in
    record s {
      orders = λ oid.
          if oid == 7 then some (numbered 7) else if oid == 8 then some (numbered 8) else none;
      orders_triggers = 8 ∷ [];
      orders_expiry = 7 ∷ [];
      expiry_at = λ oid. 500;
      order_parent = λ oid. if oid == 8 then some 7 else none;
    }

sweep_expired-entry_example :
    ((j : ℕ)
      → entry (sweep_expired 600 store) j ≡ (
          if contains j (7 ∷ []) && leb 500 600
          then expired 600 (entry store j)
          else entry store j))
    × SameHoldings store (sweep_expired 600 store)
sweep_expired-entry_example = sweep_expired-entry 600 store

expired_entry_wakes_child_example :
    (is_dormant 8 store ≡ true)
    × ((sweep_expired 600 store).orders 7 ≡ some (as_cancelled 600 (numbered 7)))
    × ((sweep_expired 600 store).orders 8 ≡ some (numbered 8))
    × (contains 8 (sweep_expired 600 store).orders_triggers ≡ true)
    × (is_dormant 8 (sweep_expired 600 store) ≡ false)
unfolding contains
expired_entry_wakes_child_example =
    expired_entry_wakes_child 600 7 8 (numbered 7) (numbered 8) store refl refl refl refl refl refl
      refl refl
