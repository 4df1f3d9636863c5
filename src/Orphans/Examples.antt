-- ===== src/Orphans/Examples.antt =====
-- `reconcileReduceOnlyStops` of src/engine/trailing-state.ts on test data: a flat position, a sell stop.
use hy_paper.Prelude.{ℕ, ◌≡◌, refl, true, false, some, [], ◌∷◌}
use hy_paper.Prelude.Int.{ℤ, pos}
use hy_paper.Prelude.Maps.{nat_keys, contains}
use hy_paper.Decimal.Integers.{integers, integers-IsOrdered}
use hy_paper.Orders.{Order, trailing_stop}
use hy_paper.Store.{Store}
use hy_paper.Orphans.{reconcile_reduce_only_stops}
use hy_paper.Orphans.Reconcile.Stranded.{
  IsStranded, HasEnded, SameOrder, apart_from_orders, reconcile_leaves_no_orphan,
}
use hy_paper.Samples.{sample_order, sample_position, sample_store}

abbrev stop : Order ℤ
stop =
    let o = sample_order false 9 100 in record o { reduce_only = true; order_type = trailing_stop }

abbrev store : Store ℤ
store =
    let s = sample_store (sample_position (pos 2) (pos 100)) stop in
    record s { orders_trailing = 7 ∷ [] }

reconcile_leaves_no_orphan_example :
    let t = (reconcile_reduce_only_stops "ann" 0 (pos 0) 50 store).1 in
    ((oid : ℕ) (o : Order ℤ)
      → contains oid store.orders_trailing ≡ true
      → store.orders oid ≡ some o
      → IsStranded "ann" 0 (pos 0) o
      → HasEnded 50 oid o t)
    × ((oid : ℕ)
        → (contains oid store.orders_trailing ≡ true
            → (o : Order ℤ) → store.orders oid ≡ some o
            → ¬ IsStranded "ann" 0 (pos 0) o)
        → SameOrder oid store t)
    × (apart_from_orders t ≡ apart_from_orders store)
reconcile_leaves_no_orphan_example =
    reconcile_leaves_no_orphan "ann" 0 (pos 0) 50 integers-IsOrdered store

stop-IsStranded : IsStranded "ann" 0 (pos 0) stop
stop-IsStranded = record { live = refl; owner = refl; market = refl; reduces = refl; stuck = refl }
