-- ===== src/Intake/Place/Price.antt =====
-- The fill that src/engine/order.ts makes of an order at once, and its price.
use Prim.Native.String.{String}
use hy_paper.Prelude.{ℕ, ◌≡◌, false, some, ◌∷◌}
use hy_paper.Decimal.{Decimal}
use hy_paper.Decimal.Exact.{IsExact}
use hy_paper.Prelude.Maps.{nat_keys, string_keys, pair_keys}
use hy_paper.Decimal.Order.{IsOrdered}
use hy_paper.Slippage.{beyond}
use hy_paper.Orders.{Grouping, PaperFill}
use hy_paper.Store.{Store}
use hy_paper.Matcher.Fills.{Grows}
use hy_paper.Intake.{
  IntakeEnv, IntakeState, OrderWire, PlaceOpts, OrderStatusReply, resting, filled_at,
}
use hy_paper.Intake.Place.Placed.{Placed}

module _ {N : Type 0} ⦃d : Decimal N⦄ (laws : IsOrdered N) (exact : IsExact N) (ie : IntakeEnv N)
    (user : String) (wire : OrderWire N) (grouping : Grouping) (opts : PlaceOpts) where
  -- A fill is the one that a reply tells of: of its order, on the side of the wire, at its price.
  abbrev pub IsFillOf : ℕ → N → PaperFill N → Type 0
  IsFillOf oid px f = (f.oid ≡ oid) × (f.is_buy ≡ wire.b) × (f.px ≡ px)

  -- What a placement that ends with a reply adds to the fills: where the reply is a fill, only that fill, at
  -- a price within the limit; else nothing.
  abbrev pub WithinLimit : IntakeState N → OrderStatusReply N → IntakeState N → Type 0
  WithinLimit st (filled_at total px oid cloid) after =
      (beyond (some wire.p) wire.b px ≡ false)
      × ((u : String) → Grows (IsFillOf oid px) (st.store.user_fills u) (after.store.user_fills u))
      × (wire.r ≡ false
          → (f : PaperFill N) × (after.store.user_fills user ≡ f ∷ st.store.user_fills user)
            × (f.sz ≡ total))
  WithinLimit st (resting oid cloid) after =
      (u : String) → after.store.user_fills u ≡ st.store.user_fills u
  WithinLimit st _ after = (u : String) → after.store.user_fills u ≡ st.store.user_fills u
