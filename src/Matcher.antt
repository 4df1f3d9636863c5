-- ===== src/Matcher.antt =====
-- src/worker/order-matcher.ts: what a fill writes.
pub mod Holdings
pub mod Frame
pub mod Settlement
pub mod Terms
pub mod Fills
pub mod Payment
pub mod Equity
mod Examples
use Prim.Native.String.{String}
use hy_paper.Prelude.{
  ℕ, suc, Bool, true, false, not, ◌&&◌, ◌||◌, Option, none, some, List, [], ◌∷◌, ◌++◌,
  if◌then◌else◌,
}
use hy_paper.Prelude.Maps.{nat_keys, string_keys, pair_keys, srem, sadd, update}
use hy_paper.Decimal.{Decimal, num, add, sub, mul, div, abs, gt, lt, is_zero, neg}
use hy_paper.Fill.{
  Fees, signed_fill_sz, new_szi, is_increasing, new_entry_px, closed_pnl, fill_fee, get_fill_dir,
}
use hy_paper.AssetMeta.{Market, LeverageSetting, get_leverage_setting, scope_for_asset}
use hy_paper.MarkFeed.{MarkCtx, get_fresh_mark}
use hy_paper.Slippage.{Level, compute_vwap}
use hy_paper.Orders.{
  Order, OrderStatus, filled, triggered, OrderType, limit, trigger, trailing_stop, PaperFill,
  Position, build_trailing_body, TrailingBody,
}
use hy_paper.Store.{
  Store, Event, order_update, order_update_batch, fill_event, trailing_history, emit, set_order,
  credit,
}
use hy_paper.Orphans.{Update, paper_order_from_hash, reconcile_reduce_only_stops}
use hy_paper.Env.{Env}
use hy_paper.NextPosition.{current_szi, current_entry_px, fill_size, next_position, alloc_px}
use hy_paper.Bracket.{cancel_order_siblings}

module _ {N : Type 0} ⦃d : Decimal N⦄ where
  -- The position hash and the sets that list it.
  pub write_position : Env N → Order N → N → N → Store N → Store N
  unfolding next_position srem sadd update alloc_px
  write_position env order fill_sz fill_px s =
      let user = order.user_id in
      let asset = order.asset in
      let prev = s.positions (user, asset) in
      let scope = scope_for_asset env.market asset in
      let setting = get_leverage_setting env.market user asset in
      let assets = s.position_assets (user, scope) in
      if is_zero (new_szi order.is_buy fill_sz (current_szi prev))
      then record s {
        positions = update s.positions (user, asset) none;
        position_assets = update s.position_assets (user, scope) (srem asset assets);
      }
      else let next =
          next_position setting order fill_sz fill_px (alloc_px env order fill_px) prev in
        record s {
          positions = update s.positions (user, asset) (some next);
          position_assets = update s.position_assets (user, scope) (sadd asset assets);
          position_holders = sadd (user, scope) s.position_holders;
        }

  pub credit_nonzero : String × String → N → Store N → Store N
  unfolding credit
  credit_nonzero account amount s = if is_zero amount then s else credit account amount s

  -- A fee is taken off, where there is one.
  pub debit_nonzero : String × String → N → Store N → Store N
  unfolding credit
  debit_nonzero account amount s = if is_zero amount then s else credit account (neg amount) s

  pub write_balance : String × String → N → N → Store N → Store N
  unfolding credit_nonzero debit_nonzero
  write_balance account pnl fee s = debit_nonzero account fee (credit_nonzero account pnl s)

  unfoldable pub as_filled : Order N → N → ℕ → Order N → Order N
  as_filled order fill_px now o = record o {
    status = filled;
    filled_sz = order.sz;
    avg_px = fill_px;
    updated_at = now;
  }

  pub write_order : Order N → N → ℕ → Store N → Store N
  unfolding as_filled srem set_order
  write_order order fill_px now s =
      let marked = set_order order.oid (as_filled order fill_px now) s in
      record marked {
        orders_open = srem order.oid s.orders_open;
        orders_triggers = srem order.oid s.orders_triggers;
        orders_trailing = srem order.oid s.orders_trailing;
      }

  pub paper_fill : Env N → Order N → N → N → N → N → N → ℕ → Bool → PaperFill N
  paper_fill env order fill_px fill_sz szi pnl fee tid is_taker = record {
    coin = order.coin;
    px = fill_px;
    sz = fill_sz;
    is_buy = order.is_buy;
    time = env.now;
    start_position = szi;
    dir = get_fill_dir szi (signed_fill_sz order.is_buy fill_sz);
    closed_pnl = pnl;
    oid = order.oid;
    crossed = is_taker;
    fee = fee;
    tid = tid;
    cloid = order.cloid;
    twap_id = order.twap_id;
  }

  -- `emitTrailingFire`, on the hash of the order after the fill.
  pub emit_trailing_fire : Option (Order N) → String → ℕ → List (Update N) → Store N → Store N
  unfolding emit
  emit_trailing_fire none user now orphans s = s
  emit_trailing_fire (some o) user now orphans s =
      let body : TrailingBody N = elim o.tr_snap [
        | some b ↦ b
        | none ↦ build_trailing_body o false
      ] in
      let history =
        λ (st : OrderStatus) (b : TrailingBody N). trailing_history user o.oid st now b in
      emit
        (order_update_batch user (
          (paper_order_from_hash o triggered now, triggered)
          ∷ ((paper_order_from_hash o filled now, filled) ∷ orphans)))
        (emit (history filled (build_trailing_body o true)) (emit (history triggered body) s))

  pub announce_fill : Order N → N → ℕ → OrderType → List (Update N) → Store N → Store N
  unfolding emit emit_trailing_fire as_filled
  announce_fill order fill_px now trailing_stop orphans s =
      emit_trailing_fire (s.orders order.oid) order.user_id now orphans s
  announce_fill order fill_px now _ [] s =
      emit (order_update order.user_id (as_filled order fill_px now order) filled) s
  announce_fill order fill_px now _ (o ∷ os) s =
      emit
        (order_update_batch order.user_id ((as_filled order fill_px now order, filled) ∷ (o ∷ os)))
        s

  -- The realised profit and the fee of a fill.
  pub fill_pnl : Order N → N → N → Store N → N
  unfolding current_szi current_entry_px
  fill_pnl order fill_px fill_sz s =
      let prev = s.positions (order.user_id, order.asset) in
      closed_pnl order.is_buy fill_sz fill_px (current_szi prev) (current_entry_px prev)

  pub fee_of : Env N → Order N → N → N → Bool → N
  fee_of env order fill_px fill_sz is_taker =
      fill_fee env.fees is_taker order.builder fill_sz fill_px

  pub fill_of : Env N → Order N → N → N → Bool → Store N → PaperFill N
  unfolding paper_fill fill_pnl fee_of
  fill_of env order fill_px fill_sz is_taker s =
      paper_fill env order fill_px fill_sz (current_szi (s.positions (order.user_id, order.asset)))
        (fill_pnl order fill_px fill_sz s) (fee_of env order fill_px fill_sz is_taker)
        (suc s.seq_tid) is_taker

  -- `executeFillWithSize` up to the end of its pipeline: all that is written in one go.
  pub write_fill : Env N → Order N → N → N → Bool → Store N → Store N
  unfolding write_position write_balance write_order sadd update fill_of
  write_fill env order fill_px fill_sz is_taker s =
      let user = order.user_id in
      let account : String × String = (user, scope_for_asset env.market order.asset) in
      let fill = fill_of env order fill_px fill_sz is_taker s in
      let numbered : Store N = record s { seq_tid = suc s.seq_tid } in
      let positioned = write_position env order fill_sz fill_px numbered in
      let active : Store N = record positioned {
        users_active = sadd user positioned.users_active;
      } in
      let paid =
        write_balance account (fill_pnl order fill_px fill_sz s)
          (fee_of env order fill_px fill_sz is_taker) active in
      let ordered = write_order order fill_px env.now paid in
      record ordered {
        user_fills = update ordered.user_fills user (fill ∷ ordered.user_fills user);
      }

  -- `executeFillWithSize`
  pub execute_fill_with_size : Env N → Order N → N → N → Bool → Store N → Store N
  unfolding write_fill announce_fill emit
  execute_fill_with_size env order fill_px fill_sz is_taker s =
      let user = order.user_id in
      let szi = current_szi (s.positions (user, order.asset)) in
      let written = write_fill env order fill_px fill_sz is_taker s in
      let reconciled =
        reconcile_reduce_only_stops user order.asset (new_szi order.is_buy fill_sz szi) env.now
          written in
      let announced =
        announce_fill order fill_px env.now order.order_type reconciled.0 reconciled.1 in
      cancel_order_siblings order.oid user env.now
        (emit (fill_event user (fill_of env order fill_px fill_sz is_taker s)) announced)

  -- `executeFill`
  unfoldable pub execute_fill : Env N → Order N → N → Bool → Store N → Store N
  unfolding fill_size execute_fill_with_size
  execute_fill env order fill_px is_taker s =
      elim (fill_size order (current_szi (s.positions (order.user_id, order.asset)))) [
        | none ↦ s
        | some fill_sz ↦ execute_fill_with_size env order fill_px fill_sz is_taker s
      ]
