-- ===== src/Intake.antt =====
-- src/engine/order.ts: what the intake of orders reads and writes, and an order that it saves.
pub mod Place
pub mod Saved
pub mod Cancel
pub mod Links
pub mod Modify
pub mod Settings
mod Examples
use Prim.Native.String.{String}
use text.Mathlib.Text.{◌==◌ as str_eq}
use hy_paper.Prelude.{
  ℕ, suc, ◌-◌, Bool, true, false, Option, none, some, List, [], ◌∷◌, ◌==◌, get_elem?, if◌then◌else◌,
}
use hy_paper.Prelude.Maps.{nat_keys, string_keys, pair_keys, sadd, update}
use hy_paper.Decimal.{Decimal, num}
use hy_paper.Trailing.Hash.{TrailingFields}
use hy_paper.Fill.{Builder}
use hy_paper.AssetMeta.{
  UniverseEntry, load_universe_entry, scope_for_asset, is_spot_asset, spot_offset,
}
use hy_paper.Orders.{Order, OrderType, TimeInForce, TpSl, Grouping, open_order}
use hy_paper.Store.{Store, Event, order_update, emit}
use hy_paper.Env.{Env}

-- `SpotMetaCache`
pub record SpotToken : Type 0 where
  pub sz_decimals : ℕ
  pub index : ℕ

pub record SpotPair : Type 0 where
  pub name : String
  pub base_token : ℕ
  pub index : ℕ

pub record SpotMeta : Type 0 where
  pub tokens : List SpotToken
  pub universe : List SpotPair

-- What the intake reads besides a tick.
pub record IntakeEnv (N : Type 0) : Type 0 where
  pub env : Env N
  pub spot_meta : Option SpotMeta

-- Besides the store: the last number of an order, USER_CLOIDS by user and cloid, and USER_ORDERS_SCOPED by
-- user and scope, without the scores.
pub record IntakeState (N : Type 0) : Type 0 where
  pub store : Store N
  pub seq_oid : ℕ
  pub cloids : String × String → Option ℕ
  pub user_orders : String × String → List ℕ

pub record TriggerWire (N : Type 0) : Type 0 where
  pub is_market : Bool
  pub trigger_px : N
  pub tpsl : TpSl

-- `HlOrderWire`. The size is none if it is not a finite number.
pub record OrderWire (N : Type 0) : Type 0 where
  pub a : ℕ
  pub b : Bool
  pub p : N
  pub s : Option N
  pub r : Bool
  pub tif : Option TimeInForce
  pub trigger : Option (TriggerWire N)
  pub c : Option String

pub record PlaceOpts : Type 0 where
  pub expires_after : Option ℕ
  pub builder : Option Builder
  pub twap_id : Option ℕ

pub data OrderError : Type 0 where
  unknown_asset invalid_size invalid_leverage missing_tif no_market_price ioc_not_filled :
      OrderError
  insufficient_margin alo_crossed not_found not_open already_finished modify_invalid : OrderError
  cloid_not_found cannot_modify : OrderError

-- `HlOrderResponseStatus`
pub data OrderStatusReply (N : Type 0) : Type 0 where
  resting : (oid : ℕ) (cloid : Option String) → OrderStatusReply N
  filled_at : (total_sz avg_px : N) (oid : ℕ) (cloid : Option String) → OrderStatusReply N
  refused : OrderError → OrderStatusReply N
  success : OrderStatusReply N

-- The entry at a place, if its own index is that place, and else the first with that index.
find_pair : ℕ → List SpotPair → Option SpotPair
find_pair i [] = none
find_pair i (p ∷ ps) = let rest = find_pair i ps in if p.index == i then some p else rest

spot_pair : ℕ → List SpotPair → Option SpotPair
unfolding find_pair
spot_pair i pairs = elim (get_elem? pairs i) [
  | none ↦ find_pair i pairs
  | some p ↦ if p.index == i then some p else find_pair i pairs
]

find_token : ℕ → List SpotToken → Option SpotToken
find_token i [] = none
find_token i (t ∷ ts) = let rest = find_token i ts in if t.index == i then some t else rest

base_decimals : List SpotToken → ℕ → ℕ
unfolding find_token
base_decimals tokens i =
    let found : Option SpotToken = elim (get_elem? tokens i) [
      | none ↦ find_token i tokens
      | some t ↦ if t.index == i then some t else find_token i tokens
    ] in
    elim found [ none ↦ 0 | some t ↦ t.sz_decimals ]

-- `resolveAssetCoin`; an empty name is no coin.
coin_name : String → Option String
coin_name name = if str_eq name "" then none else some name

-- An empty cloid is not stored.
abbrev pub stored_cloid : Option String → Option String
stored_cloid none = none
stored_cloid (some cloid) = if str_eq cloid "" then none else some cloid

module _ {N : Type 0} where
  unfoldable pub resolve_asset_coin : IntakeEnv N → ℕ → Option String
  unfolding spot_pair coin_name
  resolve_asset_coin ie asset =
      if is_spot_asset asset
      then elim ie.spot_meta [
        | none ↦ none
        | some spot ↦ elim (spot_pair (asset - spot_offset) spot.universe) [
          | none ↦ none
          | some p ↦ coin_name p.name
        ]
      ]
      else elim (load_universe_entry ie.env.market asset) [
        | none ↦ none
        | some found ↦ elim (get_elem? found.0 found.1) [
          | none ↦ none
          | some entry ↦ coin_name entry.name
        ]
      ]

  -- `getAssetDecimals`
  pub get_asset_decimals : IntakeEnv N → ℕ → ℕ
  unfolding spot_pair base_decimals
  get_asset_decimals ie asset =
      if is_spot_asset asset
      then elim ie.spot_meta [
        | none ↦ 0
        | some spot ↦ elim (spot_pair (asset - spot_offset) spot.universe) [
          | none ↦ 0
          | some p ↦ base_decimals spot.tokens p.base_token
        ]
      ]
      else elim (load_universe_entry ie.env.market asset) [
        | none ↦ 0
        | some found ↦ elim (get_elem? found.0 found.1) [
          | none ↦ 0
          | some entry ↦ entry.sz_decimals
        ]
      ]

  -- `nextOid`
  unfoldable pub draw_oid : IntakeState N → ℕ × IntakeState N
  draw_oid st = (suc st.seq_oid, record st { seq_oid = suc st.seq_oid })

  map_cloid : String → Option String → ℕ → IntakeState N → IntakeState N
  unfolding update
  map_cloid user none oid st = st
  map_cloid user (some cloid) oid st =
      if str_eq cloid ""
      then st
      else record st { cloids = update st.cloids (user, cloid) (some oid) }

  expire : Option ℕ → ℕ → Store N → Store N
  unfolding sadd update
  expire none oid s = s
  expire (some at) oid s = record s {
    orders_expiry = sadd oid s.orders_expiry;
    expiry_at = update s.expiry_at oid at;
  }

  -- `saveOrder`; the hash has no `twapId`, and no empty cloid.
  pub save_order : Order N → Option ℕ → IntakeState N → IntakeState N
  unfolding map_cloid expire update
  save_order order expires_after st =
      let s = st.store in
      let hashed : Store N = record s {
        orders =
            update s.orders order.oid
              (some (record order { twap_id = none; cloid = stored_cloid order.cloid }));
      } in
      map_cloid order.user_id order.cloid order.oid
        (record st { store = expire expires_after order.oid hashed })

  -- ZADD on the orders of the user in the scope of the asset.
  unfoldable pub list_order : IntakeEnv N → Order N → IntakeState N → IntakeState N
  unfolding sadd update
  list_order ie order st =
      let key : String × String = (order.user_id, scope_for_asset ie.env.market order.asset) in
      record st { user_orders = update st.user_orders key (sadd order.oid (st.user_orders key)) }

  pub announce_open : Order N → IntakeState N → IntakeState N
  unfolding emit
  announce_open order st = record st {
    store = emit (order_update order.user_id order open_order) st.store;
  }

  -- `restOrder`
  pub rest_order : IntakeEnv N → Order N → IntakeState N → IntakeState N
  unfolding list_order announce_open sadd
  rest_order ie order st =
      let s = st.store in
      let open_set : Store N = record s { orders_open = sadd order.oid s.orders_open } in
      announce_open order (list_order ie order (record st { store = open_set }))

module _ {N : Type 0} ⦃d : Decimal N⦄ where
  -- The fields of a trailing stop, which no other order has.
  abbrev pub no_trailing : TrailingFields N
  no_trailing = record {
    tr_kind = "";
    tr_value = num 0;
    tr_act_px = none;
    tr_activated = "";
    tr_best = none;
    tr_sz_dec = 0;
  }

  -- `buildOrder` from the wire, with what the caller passes on of the options.
  pub build_order :
      ℕ
      → String
      → String
      → OrderWire N
      → N
      → OrderType
      → TimeInForce
      → Grouping
      → ℕ
      → Option Builder
      → Option ℕ
      → Order N
  build_order oid user coin wire sz order_type tif grouping now builder twap_id = record {
    oid = oid;
    cloid = wire.c;
    user_id = user;
    asset = wire.a;
    coin = coin;
    is_buy = wire.b;
    sz = sz;
    limit_px = wire.p;
    order_type = order_type;
    tif = tif;
    reduce_only = wire.r;
    trigger_px = none;
    tpsl = none;
    is_market = false;
    grouping = grouping;
    status = open_order;
    filled_sz = num 0;
    avg_px = num 0;
    created_at = now;
    updated_at = now;
    builder = builder;
    twap_id = twap_id;
    trailing = no_trailing;
    tr_snap = none;
  }
