-- ===== src/Orders.antt =====
-- src/types/order.ts and src/types/position.ts: orders, fills and positions as the Redis hashes hold
-- them, and the body of a trailing stop that src/engine/trailing-math.ts builds from its hash.
use Prim.Native.String.{String}
use hy_paper.Prelude.{ℕ, Bool, true, false, Option, none, some, if◌then◌else◌}
use hy_paper.Decimal.{Decimal, num, sub, lte}
use hy_paper.Fill.{Builder}
use hy_paper.Trailing.{TrailingParams, TrailingState}
use hy_paper.Trailing.Hash.{TrailingFields, read_trailing, show_bool}

pub data OrderStatus : Type 0 where
  open_order filled cancelled triggered rejected reduce_only_canceled margin_canceled : OrderStatus

pub data OrderType : Type 0 where
  limit trigger trailing_stop : OrderType

pub data TimeInForce : Type 0 where
  gtc ioc alo : TimeInForce

pub data TpSl : Type 0 where
  tp sl : TpSl

pub data Grouping : Type 0 where
  na normal_tpsl position_tpsl : Grouping

abbrev pub is_open : OrderStatus → Bool
is_open open_order = true
is_open _ = false

-- The prose of `triggerCondition`, before it is printed.
pub data Condition (N : Type 0) : Type 0 where
  was_triggered : Condition N
  live : TrailingParams N → TrailingState N → Condition N

pub record TrailingBody (N : Type 0) : Type 0 where
  pub coin : String
  pub is_buy : Bool
  pub limit_px : N
  pub sz : N
  pub oid : ℕ
  pub timestamp : ℕ
  pub condition : Condition N
  pub is_trigger : Bool
  pub trigger_px : Option N
  pub reduce_only : Bool
  pub orig_sz : N
  pub tif : Option TimeInForce

-- The hash of an order: `PaperOrder` and the fields of a trailing stop.
pub record Order (N : Type 0) : Type 0 where
  pub oid : ℕ
  pub cloid : Option String
  pub user_id : String
  pub asset : ℕ
  pub coin : String
  pub is_buy : Bool
  pub sz : N
  pub limit_px : N
  pub order_type : OrderType
  pub tif : TimeInForce
  pub reduce_only : Bool
  pub trigger_px : Option N
  pub tpsl : Option TpSl
  pub is_market : Bool
  pub grouping : Grouping
  pub status : OrderStatus
  pub filled_sz : N
  pub avg_px : N
  pub created_at : ℕ
  pub updated_at : ℕ
  pub builder : Option Builder
  pub twap_id : Option ℕ
  pub trailing : TrailingFields N
  pub tr_snap : Option (TrailingBody N)

pub record PaperFill (N : Type 0) : Type 0 where
  pub coin : String
  pub px : N
  pub sz : N
  pub is_buy : Bool
  pub time : ℕ
  pub start_position : N
  pub dir : String
  pub closed_pnl : N
  pub oid : ℕ
  pub crossed : Bool
  pub fee : N
  pub tid : ℕ
  pub cloid : Option String
  pub twap_id : Option ℕ

pub record Position (N : Type 0) : Type 0 where
  pub coin : String
  pub szi : N
  pub entry_px : N
  pub cum_funding : N
  pub cum_funding_since_open : N
  pub cum_funding_since_change : N
  pub margin_alloc : Option N
  pub raw_usd : Option N

module _ {N : Type 0} ⦃d : Decimal N⦄ where
  -- `remainderSz`: what a finished stop left unfilled.
  pub remainder_sz : Order N → N
  remainder_sz o = let rest = sub o.sz o.filled_sz in if lte rest (num 0) then num 0 else rest

  pub build_trailing_body : Order N → Bool → TrailingBody N
  unfolding remainder_sz read_trailing show_bool
  build_trailing_body o finished =
      let read = read_trailing (show_bool o.is_buy) o.trailing in
      if finished
      then record {
        coin = o.coin;
        is_buy = o.is_buy;
        limit_px = o.limit_px;
        sz = remainder_sz o;
        oid = o.oid;
        timestamp = o.updated_at;
        condition = was_triggered;
        is_trigger = false;
        trigger_px = none;
        reduce_only = o.reduce_only;
        orig_sz = o.sz;
        tif = some gtc;
      }
      else record {
        coin = o.coin;
        is_buy = o.is_buy;
        limit_px = o.limit_px;
        sz = o.sz;
        oid = o.oid;
        timestamp = o.created_at;
        condition = live read.0 read.1;
        is_trigger = true;
        trigger_px = if read.1.activated then o.trigger_px else none;
        reduce_only = o.reduce_only;
        orig_sz = o.sz;
        tif = none;
      }
