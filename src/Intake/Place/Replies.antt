-- ===== src/Intake/Place/Replies.antt =====
-- What the reply of placeSingleOrder in src/engine/order.ts says of the state.
use Prim.Native.String.{String}
use hy_paper.Prelude.{◌≡◌, false, not, ◌&&◌, some, inl, inr, Bool-cases, Option-cases}
use hy_paper.Prelude.Maps.{nat_keys, string_keys, pair_keys}
use hy_paper.Decimal.{Decimal, num, lte}
use hy_paper.Orders.{Grouping}
use hy_paper.Intake.{
  IntakeEnv, IntakeState, OrderWire, PlaceOpts, OrderError, unknown_asset, invalid_size,
  invalid_leverage, missing_tif, OrderStatusReply, refused, resolve_asset_coin,
}
use hy_paper.Intake.Place.{leverage_blocks, place_checked, place_single_order}
use hy_paper.Intake.Place.Placed.{Placed}
use hy_paper.Intake.Place.Placements.{place_by_tif-Placed, place_triggered_order-Placed}

-- What placeSingleOrder may come to: a refusal that changes nothing, or a placement of an order whose
-- asset is known, whose size is positive, and whose leverage is allowed unless it only reduces.
pub data Outcome {N : Type 0} ⦃d : Decimal N⦄ (ie : IntakeEnv N) (user : String)
    (wire : OrderWire N) (grouping : Grouping) (opts : PlaceOpts) (st : IntakeState N)
    : OrderStatusReply N × IntakeState N → Type 0 where
  turned_away : (e : OrderError) → Outcome ie user wire grouping opts st (refused e, st)
  placed :
      {reply : OrderStatusReply N × IntakeState N} (coin : String) (sz : N)
      → resolve_asset_coin ie wire.a ≡ some coin
      → wire.s ≡ some sz
      → lte sz (num 0) ≡ false
      → (not wire.r && leverage_blocks ie user wire.a wire.b st.store) ≡ false
      → Placed ie user coin wire sz grouping opts st reply
      → Outcome ie user wire grouping opts st reply

module _ {N : Type 0} ⦃d : Decimal N⦄ (ie : IntakeEnv N) (user : String) (wire : OrderWire N) where
  place_checked-Outcome :
      (coin : String) (sz : N) (grouping : Grouping) (opts : PlaceOpts) (st : IntakeState N)
      → resolve_asset_coin ie wire.a ≡ some coin
      → wire.s ≡ some sz
      → lte sz (num 0) ≡ false
      → Outcome ie user wire grouping opts st (place_checked ie user coin wire sz grouping opts st)
  unfolding place_checked
  place_checked-Outcome coin sz grouping opts st known sized positive =
      elim (Bool-cases (not wire.r && leverage_blocks ie user wire.a wire.b st.store)) [
        | inl blocks ↦ simp (blocks, place_checked) (turned_away invalid_leverage)
        | inr free ↦ elim (Option-cases wire.trigger) [
          | inl plain ↦ elim (Option-cases wire.tif) [
            | inl no_tif ↦ simp (free, place_checked, plain, no_tif) (turned_away missing_tif)
            | inr (tif, asked) ↦
                simp (free, place_checked, plain, asked)
                  (placed coin sz known sized positive free
                    (place_by_tif-Placed ie user coin wire sz grouping opts tif st plain asked))
          ]
          | inr (t, asked) ↦
              simp (free, place_checked, asked)
                (placed coin sz known sized positive free
                  (place_triggered_order-Placed ie user coin wire sz grouping opts t st asked))
        ]
      ]

  -- Placing an order is refused and changes nothing; or it is given the next number and then rests, as a
  -- trigger order, or as a limit order that is not IOC, that does not cross the mid and has margin at its
  -- limit price, with its deadline if it has one, and with no balance or position changed; or, where it is
  -- a limit order that is not ALO, it is filled at once as a taker, at the fill price for the mid that it
  -- crosses and has margin at. In the two last cases the asset is known, the size is positive, the leverage
  -- is allowed unless the order only reduces, and the order is stored with the terms that were asked
  -- for: owner, asset, side, size, limit price, whether it only reduces, its kind with the time in force or
  -- the trigger price, take-profit or stop-loss and whether it is a market order, cloid and grouping. A
  -- resting order keeps the builder, and so does an IOC order that fills, but not a GTC order that fills.
  pub place_single_order-Outcome :
      (grouping : Grouping) (opts : PlaceOpts) (st : IntakeState N)
      → Outcome ie user wire grouping opts st (place_single_order ie user wire grouping opts st)
  unfolding place_single_order
  place_single_order-Outcome grouping opts st = elim (Option-cases (resolve_asset_coin ie wire.a)) [
    | inl unknown ↦ simp (unknown, place_single_order) (turned_away unknown_asset)
    | inr (coin, known) ↦ elim (Option-cases wire.s) [
      | inl unsized ↦ simp (known, place_single_order, unsized) (turned_away invalid_size)
      | inr (sz, sized) ↦ elim (Bool-cases (lte sz (num 0))) [
        | inl zero ↦ simp (known, place_single_order, sized, zero) (turned_away invalid_size)
        | inr positive ↦
            simp (known, place_single_order, sized, positive)
              (place_checked-Outcome coin sz grouping opts st known sized positive)
      ]
    ]
  ]
