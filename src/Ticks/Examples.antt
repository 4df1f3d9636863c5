-- ===== src/Ticks/Examples.antt =====
-- A tick of src/worker/order-matcher.ts on test data: the mid is 110.
use hy_paper.Prelude.{true, false, some, none, [], ◌∷◌, ◌==◌, if◌then◌else◌, arith}
use hy_paper.Prelude.Int.{ℤ, pos}
use hy_paper.Prelude.Maps.{nat_keys, string_keys, pair_keys}
use hy_paper.Decimal.Integers.{integers, integers-IsOrdered}
use hy_paper.Orders.{Order, tp, trigger}
use hy_paper.Store.{Store}
use hy_paper.Ticks.{match_open_orders}
use hy_paper.Matcher.Fills.{Grows}
use hy_paper.Ticks.Resting.{Honours, IsKeyed, resting_fills_are_fair}
use hy_paper.Samples.{sample_env, sample_order, sample_position, sample_store}

abbrev store : Store ℤ
store = sample_store (sample_position (pos 2) (pos 100)) (sample_order true 2 115)

store-IsKeyed : IsKeyed store
store-IsKeyed oid t h = ground arith

resting_fills_are_fair_example :
    Grows
      (Honours store)
      (store.user_fills "ann")
      ((match_open_orders sample_env store).user_fills "ann")
resting_fills_are_fair_example =
    resting_fills_are_fair integers-IsOrdered sample_env store store-IsKeyed "ann"

-- Order 7 takes the profit of its parent, order 6, which rests.
abbrev leg : Order ℤ
leg =
    let o = sample_order false 2 105 in
    record o { order_type = trigger; trigger_px = some (pos 105); tpsl = some tp; is_market = true }

abbrev parent : Order ℤ
parent = let o = sample_order true 2 90 in record o { oid = 6 }

abbrev bracket : Store ℤ
bracket =
    let s = sample_store (sample_position (pos 2) (pos 100)) leg in
    record s {
      orders = λ oid. if oid == 7 then some leg else if oid == 6 then some parent else none;
      orders_open = 6 ∷ [];
      orders_triggers = 7 ∷ [];
      order_parent = λ oid. if oid == 7 then some 6 else none;
    }
