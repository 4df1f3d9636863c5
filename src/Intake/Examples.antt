-- ===== src/Intake/Examples.antt =====
-- The intake of orders on test data: an entry, number 7, with two children, 8 and 9.
use hy_paper.Prelude.{
  ℕ, ◌≡◌, refl, true, false, none, some, List, [], ◌∷◌, arith, ◌==◌, if◌then◌else◌,
}
use hy_paper.Prelude.Int.{ℤ, pos}
use hy_paper.Prelude.Maps.{nat_keys, string_keys, pair_keys, contains}
use hy_paper.Decimal.Integers.{integers}
use hy_paper.Orders.{Order, ioc, normal_tpsl, na}
use hy_paper.Store.{Store}
use hy_paper.Bracket.{as_cancelled, cancel_order_siblings}
use hy_paper.Bracket.Siblings.{view}
use hy_paper.Intake.{
  IntakeEnv, IntakeState, OrderWire, PlaceOpts, success, resting, refused, insufficient_margin,
  OrderStatusReply,
}
use hy_paper.Intake.Place.{place_single_order}
use hy_paper.Intake.Place.Replies.{Outcome, place_single_order-Outcome}
use hy_paper.Intake.Cancel.{is_own_open, cancel_order}
use hy_paper.Intake.Cancel.Only.{book}
use hy_paper.Intake.Cancel.Count.{live, Covers, count_open}
use hy_paper.Intake.Links.{link_bracket, placed_oids}
use hy_paper.Intake.Links.Entry.{
  refused_entry_links_children, entry_bracket_fills, cancelled_entry_takes_children,
}
use hy_paper.Intake.Modify.{carry_bracket_links}
use hy_paper.Intake.Modify.Carried.{carried_leg_stays_in_the_bracket}
use hy_paper.Intake.Settings.{update_leverage}
use hy_paper.Intake.Settings.Leverage.{LeverageOutcome, update_leverage-LeverageOutcome}
use hy_paper.Samples.{sample_env, sample_market, sample_order, sample_position, sample_store}

abbrev intake_env : IntakeEnv ℤ
intake_env = record {
  env = record sample_env {
    market = record sample_market {
      meta = some (record { name = "BTC"; sz_decimals = 3; max_leverage = 40 } ∷ []);
    };
  };
  spot_meta = none;
}

abbrev numbered : ℕ → Order ℤ
numbered n = record (sample_order false 2 120) { oid = n }

abbrev store : Store ℤ
store =
    let s = sample_store (sample_position (pos 2) (pos 100)) (numbered 7) in
    record s {
      orders = λ oid.
          if oid == 7
          then some (numbered 7)
          else if oid == 8
          then some (numbered 8)
          else if oid == 9
          then some (numbered 9)
          else none;
      orders_open = 7 ∷ 8 ∷ 9 ∷ [];
    }

abbrev state : IntakeState ℤ
state = record { store = store; seq_oid = 9; cloids = λ k. none; user_orders = λ k. [] }

-- To buy 2 for at most 111, where the mid is 110.
abbrev buy_wire : OrderWire ℤ
buy_wire = record {
  a = 0;
  b = true;
  p = pos 111;
  s = some (pos 2);
  r = false;
  tif = some ioc;
  trigger = none;
  c = none;
}

abbrev opts : PlaceOpts
opts = record { expires_after = none; builder = none; twap_id = none }

place_single_order-Outcome_example :
    Outcome intake_env "ann" buy_wire na opts state
      (place_single_order intake_env "ann" buy_wire na opts state)
place_single_order-Outcome_example =
    place_single_order-Outcome intake_env "ann" buy_wire na opts state

all_covered : Covers (7 ∷ 8 ∷ 9 ∷ []) (book store)
unfolding Covers live contains
all_covered j h = ground (arith, h)

entry_bracket_fills_example :
    let linked = link_bracket normal_tpsl (7 ∷ 8 ∷ 9 ∷ []) store in
    let t = cancel_order_siblings 8 "ann" 50 linked in
    ((j : ℕ) → view (cancel_order_siblings 7 "ann" 50 linked) j ≡ view store j)
    × (t.orders 9 ≡ some (as_cancelled 50 (numbered 9)))
    × (contains 9 t.orders_open ≡ false)
    × (contains 9 t.orders_triggers ≡ false)
unfolding contains
entry_bracket_fills_example =
    entry_bracket_fills 7 8 (9 ∷ []) 8 9 "ann" 50 store (numbered 9) refl refl refl refl refl refl
      refl

cancelled_entry_takes_children_example :
    (t : Store ℤ) × (cancel_order 4 "ann" 50 7 (link_bracket normal_tpsl (7 ∷ 8 ∷ 9 ∷ []) store)
      ≡ some (success, t))
    × ((a : ℕ) → contains a (8 ∷ 9 ∷ []) ≡ true → is_own_open "ann" (t.orders a) ≡ false)
unfolding count_open live
cancelled_entry_takes_children_example =
    cancelled_entry_takes_children 7 8 (9 ∷ []) 4 "ann" 50 (7 ∷ 8 ∷ 9 ∷ []) (numbered 7) store
      all_covered (omega arith) refl refl refl

-- Order 8 is to be replaced by order 9; order 7 is its sibling and order 3 the parent.
abbrev linked_store : Store ℤ
linked_store = record store {
  order_bracket = λ oid. if oid == 8 then 7 ∷ [] else if oid == 7 then 8 ∷ [] else [];
  order_parent = λ oid. if oid == 8 then some 3 else if oid == 7 then some 3 else none;
  order_children = λ oid. if oid == 3 then 7 ∷ 8 ∷ [] else [];
}

carried_leg_stays_in_the_bracket_example :
    (t : Store ℤ) × (carry_bracket_links 4 "ann" 50 8 (resting 9 none) linked_store ≡ some t)
    × ((j : ℕ) → view t j ≡ view linked_store j)
    × (t.order_parent 9 ≡ some 3)
    × (contains 9 (t.order_children 3) ≡ true)
    × (contains 8 (t.order_children 3) ≡ false)
    × ((cancel_order_siblings 7 "ann" 50 t).orders 9 ≡ some (as_cancelled 50 (numbered 9)))
    × ((cancel_order_siblings 9 "ann" 50 t).orders 7 ≡ some (as_cancelled 50 (numbered 7)))
unfolding contains
carried_leg_stays_in_the_bracket_example =
    carried_leg_stays_in_the_bracket 4 "ann" 50 8 9 3 7 none (numbered 9) (numbered 7) linked_store
      refl refl refl refl refl refl refl refl refl refl refl refl refl

refused_entry_links_children_example :
    let replies : List (OrderStatusReply ℤ) =
      refused insufficient_margin ∷ resting 8 none ∷ resting 9 none ∷ [] in
    let linked = link_bracket normal_tpsl (placed_oids replies) store in
    (linked.order_parent 9 ≡ some 8)
    × ((j : ℕ) → view (cancel_order_siblings 8 "ann" 50 linked) j ≡ view store j)
refused_entry_links_children_example =
    refused_entry_links_children insufficient_margin 8 9 none none "ann" 50 store

update_leverage-LeverageOutcome_example :
    LeverageOutcome "ann" 0 false
      (some 5)
      store
      intake_env.env.market
      (update_leverage none "ann" 0 false (some 5) store intake_env.env.market)
update_leverage-LeverageOutcome_example =
    update_leverage-LeverageOutcome none "ann" 0 false (some 5) store intake_env.env.market
