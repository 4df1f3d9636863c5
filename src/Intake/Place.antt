-- ===== src/Intake/Place.antt =====
-- src/engine/order.ts, placeSingleOrder: an order is refused, filled at once, or rests.
pub mod Placed
pub mod Placements
pub mod Indexed
pub mod Price
pub mod Unfilled
pub mod Replies
pub mod Leverage
use Prim.Native.String.{String}
use hy_paper.Prelude.{
  ℕ, suc, Bool, true, false, not, ◌&&◌, ◌||◌, Option, none, some, List, [], ◌∷◌, if◌then◌else◌, ltb,
}
use hy_paper.Prelude.Maps.{nat_keys, string_keys, pair_keys, sadd, update}
use hy_paper.Decimal.{Decimal, num, lte, gte, gt, lt}
use hy_paper.Fill.{Builder}
use hy_paper.AssetMeta.{is_spot_asset, cached_max_leverage, get_leverage_setting}
use hy_paper.Orders.{Order, OrderType, limit, trigger, TimeInForce, gtc, ioc, alo, TpSl, Grouping}
use hy_paper.Store.{Store}
use hy_paper.Env.{Env, mid_of}
use hy_paper.NextPosition.{current_szi}
use hy_paper.Matcher.{execute_fill}
use hy_paper.Margin.{check_margin_for_order}
use hy_paper.Ticks.{compute_fill_price}
use hy_paper.Intake.{
  IntakeEnv, IntakeState, TriggerWire, OrderWire, PlaceOpts, OrderError, unknown_asset,
  invalid_size, invalid_leverage, missing_tif, no_market_price, ioc_not_filled, insufficient_margin,
  alo_crossed, OrderStatusReply, resting, filled_at, refused, resolve_asset_coin, draw_oid,
  save_order, list_order, announce_open, rest_order, build_order,
}

module _ {N : Type 0} ⦃d : Decimal N⦄ where
  -- Whether `leverageErrorForOpen` refuses.
  pub leverage_blocks : IntakeEnv N → String → ℕ → Bool → Store N → Bool
  leverage_blocks ie user asset is_buy s =
      let szi = current_szi (s.positions (user, asset)) in
      let reducing = (gt szi (num 0) && not is_buy) || (lt szi (num 0) && is_buy) in
      not (is_spot_asset asset)
      && (not reducing && elim (cached_max_leverage ie.env.market asset) [
        | none ↦ false
        | some max ↦ ltb max (get_leverage_setting ie.env.market user asset).leverage
      ])

  unfoldable pub would_fill : Bool → N → N → Bool
  would_fill is_buy mid limit_px = if is_buy then lte mid limit_px else gte mid limit_px

  -- The margin check, which a reduce-only order is spared.
  pub has_margin : IntakeEnv N → String → OrderWire N → N → N → Store N → Bool
  has_margin ie user wire sz px s =
      wire.r || check_margin_for_order ie.env user wire.a wire.b sz px s

  -- An order that is saved and filled, for a price from the book or the mid.
  pub fill_saved :
      IntakeEnv N → Order N → N → Option String → IntakeState N → OrderStatusReply N × IntakeState N
  fill_saved ie order mid cloid st =
      let px = compute_fill_price ie.env order mid (some order.limit_px) in
      (
        filled_at order.sz px order.oid cloid,
        record st { store = execute_fill ie.env order px true st.store },
      )

  pub place_resting :
      IntakeEnv N
      → String
      → String
      → OrderWire N
      → N
      → TimeInForce
      → Grouping
      → PlaceOpts
      → IntakeState N
      → OrderStatusReply N × IntakeState N
  unfolding draw_oid save_order rest_order build_order has_margin
  place_resting ie user coin wire sz tif grouping opts st =
      if not (has_margin ie user wire sz wire.p st.store)
      then (refused insufficient_margin, st)
      else let (oid, drawn) = draw_oid st in
        let order =
          build_order oid user coin wire sz limit tif grouping ie.env.now opts.builder none in
        (resting oid wire.c, rest_order ie order (save_order order opts.expires_after drawn))

  pub place_ioc :
      IntakeEnv N
      → String
      → String
      → OrderWire N
      → N
      → Grouping
      → PlaceOpts
      → IntakeState N
      → OrderStatusReply N × IntakeState N
  unfolding draw_oid save_order announce_open build_order has_margin fill_saved would_fill
  place_ioc ie user coin wire sz grouping opts st = elim (mid_of coin ie.env.mids) [
    | none ↦ (refused no_market_price, st)
    | some mid ↦
        if not (would_fill wire.b mid wire.p)
        then (refused ioc_not_filled, st)
        else if not (has_margin ie user wire sz mid st.store)
        then (refused insufficient_margin, st)
        else let (oid, drawn) = draw_oid st in
          let order =
            build_order oid user coin wire sz limit ioc grouping ie.env.now opts.builder
              opts.twap_id in
          fill_saved ie order mid wire.c
            (announce_open order (save_order order opts.expires_after drawn))
  ]

  pub crosses_mid : IntakeEnv N → String → OrderWire N → Option N
  unfolding mid_of would_fill
  crosses_mid ie coin wire = elim (mid_of coin ie.env.mids) [
    | none ↦ none
    | some mid ↦ if would_fill wire.b mid wire.p then some mid else none
  ]

  pub place_alo :
      IntakeEnv N
      → String
      → String
      → OrderWire N
      → N
      → Grouping
      → PlaceOpts
      → IntakeState N
      → OrderStatusReply N × IntakeState N
  unfolding crosses_mid place_resting
  place_alo ie user coin wire sz grouping opts st = elim (crosses_mid ie coin wire) [
    | some mid ↦ (refused alo_crossed, st)
    | none ↦ place_resting ie user coin wire sz alo grouping opts st
  ]

  -- A GTC order that crosses is filled with no builder.
  pub place_gtc :
      IntakeEnv N
      → String
      → String
      → OrderWire N
      → N
      → Grouping
      → PlaceOpts
      → IntakeState N
      → OrderStatusReply N × IntakeState N
  unfolding crosses_mid place_resting draw_oid save_order build_order has_margin fill_saved
  place_gtc ie user coin wire sz grouping opts st = elim (crosses_mid ie coin wire) [
    | some mid ↦
        if not (has_margin ie user wire sz mid st.store)
        then (refused insufficient_margin, st)
        else let (oid, drawn) = draw_oid st in
          let order = build_order oid user coin wire sz limit gtc grouping ie.env.now none none in
          fill_saved ie order mid wire.c (save_order order opts.expires_after drawn)
    | none ↦ place_resting ie user coin wire sz gtc grouping opts st
  ]

  -- `placeTriggeredOrder`; it is not checked for margin and does not expire.
  pub place_triggered_order :
      IntakeEnv N
      → String
      → String
      → OrderWire N
      → N
      → TriggerWire N
      → Grouping
      → Option Builder
      → IntakeState N
      → OrderStatusReply N × IntakeState N
  unfolding draw_oid save_order list_order announce_open build_order sadd
  place_triggered_order ie user coin wire sz t grouping builder st =
      let (oid, drawn) = draw_oid st in
      let plain = build_order oid user coin wire sz trigger gtc grouping ie.env.now builder none in
      let order : Order N = record plain {
        trigger_px = some t.trigger_px;
        tpsl = some t.tpsl;
        is_market = t.is_market;
      } in
      let saved = save_order order none drawn in
      let s = saved.store in
      let watched : Store N = record s { orders_triggers = sadd oid s.orders_triggers } in
      (
        resting oid wire.c,
        announce_open order (list_order ie order (record saved { store = watched })),
      )

  pub place_by_tif :
      IntakeEnv N
      → String
      → String
      → OrderWire N
      → N
      → TimeInForce
      → Grouping
      → PlaceOpts
      → IntakeState N
      → OrderStatusReply N × IntakeState N
  unfolding place_ioc place_alo place_gtc
  place_by_tif ie user coin wire sz ioc grouping opts st =
      place_ioc ie user coin wire sz grouping opts st
  place_by_tif ie user coin wire sz alo grouping opts st =
      place_alo ie user coin wire sz grouping opts st
  place_by_tif ie user coin wire sz gtc grouping opts st =
      place_gtc ie user coin wire sz grouping opts st

  -- What follows the checks of the asset and the size.
  pub place_checked :
      IntakeEnv N
      → String
      → String
      → OrderWire N
      → N
      → Grouping
      → PlaceOpts
      → IntakeState N
      → OrderStatusReply N × IntakeState N
  unfolding leverage_blocks place_triggered_order place_by_tif
  place_checked ie user coin wire sz grouping opts st =
      if not wire.r && leverage_blocks ie user wire.a wire.b st.store
      then (refused invalid_leverage, st)
      else elim wire.trigger [
        | some t ↦ place_triggered_order ie user coin wire sz t grouping opts.builder st
        | none ↦ elim wire.tif [
          | none ↦ (refused missing_tif, st)
          | some tif ↦ place_by_tif ie user coin wire sz tif grouping opts st
        ]
      ]

  pub place_single_order :
      IntakeEnv N
      → String
      → OrderWire N
      → Grouping
      → PlaceOpts
      → IntakeState N
      → OrderStatusReply N × IntakeState N
  unfolding resolve_asset_coin place_checked
  place_single_order ie user wire grouping opts st = elim (resolve_asset_coin ie wire.a) [
    | none ↦ (refused unknown_asset, st)
    | some coin ↦ elim wire.s [
      | none ↦ (refused invalid_size, st)
      | some sz ↦
          if lte sz (num 0)
          then (refused invalid_size, st)
          else place_checked ie user coin wire sz grouping opts st
    ]
  ]
