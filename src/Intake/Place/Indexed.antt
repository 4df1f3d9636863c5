-- ===== src/Intake/Place/Indexed.antt =====
-- The positions over a placement of src/engine/order.ts.
use Prim.Native.String.{String}
use hy_paper.Prelude.{sym, true}
use mathlib.Core.Path.{subst}
use hy_paper.Decimal.{Decimal}
use hy_paper.Orders.{Grouping}
use hy_paper.Matcher.Settlement.{IsIndexed}
use hy_paper.Ticks.Indexed.{execute_fill-IsIndexed}
use hy_paper.TrailingTicks.Indexed.{SameHoldings-IsIndexed}
use hy_paper.Intake.{IntakeEnv, IntakeState, OrderWire, PlaceOpts, OrderStatusReply}
use hy_paper.Intake.Place.{place_single_order}
use hy_paper.Intake.Place.Replies.{Outcome, turned_away, placed, place_single_order-Outcome}
use hy_paper.Intake.Place.Placed.{Placed, refusal, rests, fills}

module _ {N : Type 0} ⦃d : Decimal N⦄ (ie : IntakeEnv N) (user : String) (wire : OrderWire N)
    (grouping : Grouping) (opts : PlaceOpts) where
  Placed-IsIndexed :
      (coin : String) (sz : N) (st : IntakeState N) (r : OrderStatusReply N × IntakeState N)
      → Placed ie user coin wire sz grouping opts st r
      → IsIndexed ie.env.market st.store
      → IsIndexed ie.env.market r.1.store
  Placed-IsIndexed coin sz st _ (refusal e) h = h
  Placed-IsIndexed coin sz st _ (rests {after = after} o a b c k same l) h =
      SameHoldings-IsIndexed ie.env.market st.store after.store same h
  Placed-IsIndexed coin sz st _ (fills {after = after} {px = px} e f) h =
      subst (IsIndexed ie.env.market) (sym f.filled_after) (
        execute_fill-IsIndexed ie.env f.order px true f.saved.store
          (SameHoldings-IsIndexed ie.env.market st.store f.saved.store f.unpaid h))

  Outcome-IsIndexed :
      (st : IntakeState N) (r : OrderStatusReply N × IntakeState N)
      → Outcome ie user wire grouping opts st r
      → IsIndexed ie.env.market st.store
      → IsIndexed ie.env.market r.1.store
  Outcome-IsIndexed st _ (turned_away e) h = h
  Outcome-IsIndexed st r (placed coin sz a b c k p) h = Placed-IsIndexed coin sz st r p h

  pub place_single_order-IsIndexed :
      (st : IntakeState N)
      → IsIndexed ie.env.market st.store
      → IsIndexed ie.env.market (place_single_order ie user wire grouping opts st).1.store
  place_single_order-IsIndexed st h =
      Outcome-IsIndexed st _ (place_single_order-Outcome ie user wire grouping opts st) h
