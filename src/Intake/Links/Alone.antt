-- ===== src/Intake/Links/Alone.antt =====
-- A batch of one order in placeOrders of src/engine/order.ts.
use Prim.Native.String.{String}
use hy_paper.Prelude.{◌≡◌, refl, [], ◌∷◌}
use hy_paper.Prelude.Maps.{nat_keys}
use hy_paper.Decimal.{Decimal}
use hy_paper.Orders.{na}
use hy_paper.Intake.{IntakeEnv, IntakeState, OrderWire, PlaceOpts}
use hy_paper.Intake.Place.{place_single_order}
use hy_paper.Intake.Links.{place_each, place_orders, link_bracket}

module _ {N : Type 0} ⦃d : Decimal N⦄ where
  pub place_orders_alone :
      (ie : IntakeEnv N) (user : String) (wire : OrderWire N) (opts : PlaceOpts)
      (st : IntakeState N)
      → place_orders ie user (wire ∷ []) na opts st ≡ (
        (place_single_order ie user wire na opts st).0 ∷ [],
        (place_single_order ie user wire na opts st).1,
      )
  unfolding place_orders place_each link_bracket
  place_orders_alone ie user wire opts st = refl
