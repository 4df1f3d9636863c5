-- ===== src/StopPlacement.antt =====
-- src/engine/trailingStop.ts, placeTrailingStop, with the checks of src/engine/trailing-math.ts on a
-- trailing stop that is asked for.
pub mod Reads
pub mod Outcome
mod Examples
use Prim.Native.String.{String}
use hy_paper.Prelude.{
  ℕ, suc, Bool, true, false, not, ◌&&◌, ◌||◌, Option, none, some, ◌>>=◌, if◌then◌else◌,
}
use hy_paper.Prelude.Maps.{nat_keys, update, sadd}
use hy_paper.Decimal.{Decimal, num, mul, lte, gte, round_to_decimals}
use hy_paper.Trailing.{
  Kind, px, pct, TrailingParams, TrailingState, TrailingEval, price_decimals, evaluate_trailing,
}
use hy_paper.Trailing.Hash.{fields_from}
use hy_paper.AssetMeta.{is_spot_asset}
use hy_paper.MarkFeed.{MarkCtx, get_fresh_mark}
use hy_paper.Orders.{Order, trailing_stop, gtc, na, open_order, build_trailing_body}
use hy_paper.Store.{Store, mark_sub, order_update, trailing_history, emit}
use hy_paper.Orphans.{paper_order_from_hash}
use hy_paper.Intake.{
  IntakeEnv, IntakeState, resolve_asset_coin, get_asset_decimals, draw_oid, list_order,
}
use hy_paper.Intake.Place.{leverage_blocks}

-- A text of the action is none where it is not a decimal, or not a percentage.
pub data Retracement (N : Type 0) : Type 0 where
  by_px by_pct : Option N → Retracement N

pub record TrailingStopWire (N : Type 0) : Type 0 where
  pub asset : ℕ
  pub is_buy : Bool
  pub sz : Option N
  pub reduce_only : Bool
  pub retracement : Retracement N
  pub activation_px : Option (Option N)

pub data StopError : Type 0 where
  unknown_asset invalid_order_size percentage_invalid retracement_invalid price_convert : StopError
  invalid_leverage no_market_price : StopError

pub data StopReply : Type 0 where
  accepted : ℕ → StopReply
  refused : StopError → StopReply

-- `refreshed` is what `refreshMarks` leaves of the mark of a coin, with HL's answer in it.
pub record StopEnv (N : Type 0) : Type 0 where
  pub intake : IntakeEnv N
  pub refreshed : String → MarkCtx N

module _ {N : Type 0} ⦃d : Decimal N⦄ where
  unfoldable pub normalize_px : N → ℕ → N
  unfolding price_decimals
  normalize_px amount sz_decimals = round_to_decimals amount (price_decimals sz_decimals)

  -- A whole number is its own floor.
  is_integer : N → Bool
  is_integer a = lte a (d.floor a)

  pub validate_retracement : Retracement N → ℕ → Option StopError
  unfolding is_integer normalize_px
  validate_retracement (by_pct none) sz_decimals = some percentage_invalid
  validate_retracement (by_pct (some v)) sz_decimals =
      if not (is_integer (mul v (num 1_000)))
      then some percentage_invalid
      else if lte v (num 0) || gte v (num 100)
      then some retracement_invalid
      else none
  validate_retracement (by_px none) sz_decimals = some price_convert
  validate_retracement (by_px (some v)) sz_decimals =
      if lte (normalize_px v sz_decimals) (num 0) then some price_convert else none

  pub validate_activation : Option (Option N) → Option StopError
  validate_activation none = none
  validate_activation (some none) = some price_convert
  validate_activation (some (some act)) = if lte act (num 0) then some price_convert else none

  -- `validateTrailingStop`; none is no error.
  pub validate_trailing_stop : TrailingStopWire N → ℕ → Option StopError
  unfolding validate_retracement validate_activation
  validate_trailing_stop w sz_decimals = elim w.sz [
    | none ↦ some invalid_order_size
    | some sz ↦
        if lte sz (num 0)
        then some invalid_order_size
        else elim (validate_retracement w.retracement sz_decimals) [
          | some e ↦ some e
          | none ↦ validate_activation w.activation_px
        ]
  ]

  pub kind_of : Retracement N → Kind
  kind_of (by_px _) = px
  kind_of (by_pct _) = pct

  -- None: `D` throws.
  pub amount_of : Retracement N → ℕ → Option N
  unfolding normalize_px
  amount_of (by_pct v) sz_decimals = v
  amount_of (by_px none) sz_decimals = none
  amount_of (by_px (some v)) sz_decimals = some (normalize_px v sz_decimals)

  pub activation_of : Option (Option N) → Option (Option N)
  activation_of none = some none
  activation_of (some none) = none
  activation_of (some (some act)) = some (some act)

  pub params_from_wire : TrailingStopWire N → ℕ → Option (TrailingParams N)
  unfolding kind_of amount_of activation_of
  params_from_wire w sz_decimals = do
    amount ← amount_of w.retracement sz_decimals
    act ← activation_of w.activation_px
    some (record {
      is_buy = w.is_buy;
      kind = kind_of w.retracement;
      amount = amount;
      activation_px = act;
      sz_decimals = sz_decimals;
    })

  pub reference : TrailingParams N → N → N
  reference p mark = elim p.activation_px [ none ↦ mark | some act ↦ act ]

  -- Whether `validatePxAgainstReference` refuses.
  pub beyond_reference : TrailingParams N → N → Bool
  unfolding reference
  beyond_reference p mark = elim p.kind [
    | px ↦ not p.is_buy && gte p.amount (reference p mark)
    | pct ↦ false
  ]

  pub seed_mark : StopEnv N → String → Option N
  seed_mark se coin =
      let env = se.intake.env in
      elim (get_fresh_mark (env.ctx coin) env.now) [
        | some mark ↦ some mark
        | none ↦ get_fresh_mark (se.refreshed coin) env.now
      ]

  pub subscribe : String → IntakeState N → IntakeState N
  unfolding emit
  subscribe coin st = record st { store = emit (mark_sub coin) st.store }

  -- The hash of a stop, with the snapshot of its body.
  pub new_stop :
      ℕ → String → String → TrailingStopWire N → N → TrailingParams N → TrailingEval N → ℕ → Order N
  new_stop oid user coin w sz p ev now =
      let bare : Order N = record {
        oid = oid;
        cloid = none;
        user_id = user;
        asset = w.asset;
        coin = coin;
        is_buy = w.is_buy;
        sz = sz;
        limit_px = ev.limit_px;
        order_type = trailing_stop;
        tif = gtc;
        reduce_only = w.reduce_only;
        trigger_px = ev.trigger_px;
        tpsl = none;
        is_market = false;
        grouping = na;
        status = open_order;
        filled_sz = num 0;
        avg_px = num 0;
        created_at = now;
        updated_at = now;
        builder = none;
        twap_id = none;
        trailing = fields_from p ev.state;
        tr_snap = none;
      } in
      record bare { tr_snap = some (build_trailing_body bare false) }

  -- The stop is stored, listed and announced.
  pub store_stop : IntakeEnv N → Order N → IntakeState N → IntakeState N
  unfolding list_order emit sadd update paper_order_from_hash
  store_stop ie o st =
      let s = st.store in
      let hashed : Store N = record s {
        orders = update s.orders o.oid (some o);
        orders_trailing = sadd o.oid s.orders_trailing;
      } in
      let listed = list_order ie o (record st { store = hashed }) in
      let now = ie.env.now in
      let history = trailing_history o.user_id o.oid open_order now (build_trailing_body o false) in
      let opened = order_update o.user_id (paper_order_from_hash o open_order now) open_order in
      record listed { store = emit opened (emit history listed.store) }

  -- With a fresh mark at hand. None: an exception.
  pub place_seeded :
      IntakeEnv N
      → String
      → String
      → TrailingStopWire N
      → N
      → IntakeState N
      → Option (StopReply × IntakeState N)
  unfolding params_from_wire beyond_reference draw_oid new_stop store_stop
  place_seeded ie user coin w mark st = do
    p ← params_from_wire w (get_asset_decimals ie w.asset)
    if beyond_reference p mark then some (refused retracement_invalid, st) else do
      ev ← evaluate_trailing p (record { activated = false; best = none }) mark
      sz ← w.sz
      let (oid, drawn) = draw_oid st
      some (accepted oid, store_stop ie (new_stop oid user coin w sz p ev ie.env.now) drawn)

  pub place_trailing_stop :
      StopEnv N → String → TrailingStopWire N → IntakeState N → Option (StopReply × IntakeState N)
  unfolding validate_trailing_stop seed_mark subscribe place_seeded
  place_trailing_stop se user w st =
      let ie = se.intake in
      if is_spot_asset w.asset
      then some (refused unknown_asset, st)
      else elim (resolve_asset_coin ie w.asset) [
        | none ↦ some (refused unknown_asset, st)
        | some coin ↦ elim (validate_trailing_stop w (get_asset_decimals ie w.asset)) [
          | some e ↦ some (refused e, st)
          | none ↦
              if not w.reduce_only && leverage_blocks ie user w.asset w.is_buy st.store
              then some (refused invalid_leverage, st)
              else elim (seed_mark se coin) [
                | none ↦ some (refused no_market_price, subscribe coin st)
                | some mark ↦ place_seeded ie user coin w mark (subscribe coin st)
              ]
        ]
      ]
