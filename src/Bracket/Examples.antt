-- ===== src/Bracket/Examples.antt =====
-- `cancelOrderSiblings` of src/worker/order-matcher.ts on test data: order 8 fills, order 7 is its sibling.
use hy_paper.Prelude.{◌≡◌, ◌≢◌, true, false, some, [], ◌∷◌, if◌then◌else◌, ◌==◌}
use hy_paper.Prelude.Int.{ℤ, pos}
use hy_paper.Prelude.Maps.{nat_keys, contains}
use hy_paper.Decimal.Integers.{integers}
use hy_paper.Orders.{Order, is_open}
use hy_paper.Store.{Store}
use hy_paper.Bracket.{as_cancelled, cancel_order_siblings}
use hy_paper.Bracket.Siblings.{view, one_cancels_other}
use hy_paper.Samples.{sample_order, sample_position, sample_store}

abbrev store : Store ℤ
store =
    let s = sample_store (sample_position (pos 2) (pos 100)) (sample_order false 2 120) in
    record s { order_bracket = λ oid. if oid == 8 then 7 ∷ [] else [] }

one_cancels_other_example :
    let t = cancel_order_siblings 8 "ann" 50 store in
    (store.order_children 8 ≡ []
      → contains 7 (store.order_bracket 8) ≡ true
      → (o : Order ℤ) → store.orders 7 ≡ some o
      → is_open o.status ≡ true
      → (t.orders 7 ≡ some (as_cancelled 50 o))
        × (contains 7 t.orders_open ≡ false)
        × (contains 7 t.orders_triggers ≡ false))
    × (contains 7 (store.order_bracket 8) ≡ false → view t 7 ≡ view store 7)
    × (store.order_children 8 ≢ [] → view t 7 ≡ view store 7)
one_cancels_other_example = one_cancels_other 8 "ann" 50 store 7
