-- ===== src/Ticks.antt =====
-- src/worker/order-matcher.ts, one tick over the resting orders and the trigger orders; with
-- `computeFillPrice` of src/utils/slippage.ts.
pub mod Price
pub mod Resting
pub mod Indexed
mod Examples
use Prim.Native.String.{String}
use hy_paper.Prelude.{ℕ, Bool, true, false, Option, none, some, List, [], ◌∷◌, ◌==◌, if◌then◌else◌}
use hy_paper.Prelude.Maps.{nat_keys, srem}
use hy_paper.Decimal.{Decimal, lte, gte}
use hy_paper.Slippage.{Level, compute_vwap}
use hy_paper.Orders.{Order, TpSl, tp, sl, is_open}
use hy_paper.Store.{Store}
use hy_paper.Env.{Book, Env, mid_of}
use hy_paper.Matcher.{execute_fill}

module _ {N : Type 0} ⦃d : Decimal N⦄ where
  -- Buys walk the asks, sells walk the bids.
  pub book_side : Bool → Book N → List (Level N)
  book_side is_buy book = if is_buy then book.asks else book.bids

  pub compute_fill_price : Env N → Order N → N → Option N → N
  unfolding book_side
  compute_fill_price env order fallback_px limit_px = elim (env.book order.coin) [
    | none ↦ fallback_px
    | some book ↦
        (compute_vwap (some (book_side order.is_buy book)) order.sz order.is_buy limit_px
          fallback_px).fill_px
  ]

  pub should_fill : Order N → N → Bool
  should_fill order mid = if order.is_buy then lte mid order.limit_px else gte mid order.limit_px

  -- `checkTrigger`
  pub check_trigger : TpSl → Bool → N → N → Bool
  check_trigger sl is_buy trigger_px mid = if is_buy then gte mid trigger_px else lte mid trigger_px
  check_trigger tp is_buy trigger_px mid = if is_buy then lte mid trigger_px else gte mid trigger_px

  pub drop_open : ℕ → Store N → Store N
  unfolding srem
  drop_open oid s = record s { orders_open = srem oid s.orders_open }

  pub drop_trigger : ℕ → Store N → Store N
  unfolding srem
  drop_trigger oid s = record s { orders_triggers = srem oid s.orders_triggers }

  -- The body of the loop of `matchOpenOrders`; a resting order is a maker.
  pub match_open_order : Env N → ℕ → Store N → Store N
  unfolding should_fill compute_fill_price drop_open
  match_open_order env oid s = elim (s.orders oid) [
    | none ↦ s
    | some o ↦
        if is_open o.status
        then elim (mid_of o.coin env.mids) [
          | none ↦ s
          | some mid ↦
              if should_fill o mid
              then execute_fill env o (compute_fill_price env o mid (some o.limit_px)) false s
              else s
        ]
        else drop_open oid s
  ]

  -- A TP/SL leg sleeps while its parent rests.
  unfoldable pub is_dormant : ℕ → Store N → Bool
  is_dormant oid s = elim (s.order_parent oid) [
    | none ↦ false
    | some parent ↦ elim (s.orders parent) [ none ↦ false | some p ↦ is_open p.status ]
  ]

  pub trigger_base : Order N → N → N
  trigger_base o mid = if o.is_market then mid else o.limit_px

  pub trigger_clamp : Order N → Option N
  trigger_clamp o = if o.is_market then none else some o.limit_px

  -- The fill of a trigger order that has triggered, as a taker.
  pub fire_trigger : Env N → Order N → ℕ → N → Store N → Store N
  unfolding compute_fill_price trigger_base trigger_clamp drop_trigger
  fire_trigger env o oid mid s =
      let px = compute_fill_price env o (trigger_base o mid) (trigger_clamp o) in
      drop_trigger oid (execute_fill env o px true s)

  -- An open trigger order, once the mid, the trigger price and the kind are there.
  pub try_trigger : Env N → ℕ → Order N → Store N → Store N
  unfolding is_dormant check_trigger fire_trigger
  try_trigger env oid o s = elim (mid_of o.coin env.mids) [
    | none ↦ s
    | some mid ↦ elim o.trigger_px [
      | none ↦ s
      | some trigger_px ↦ elim o.tpsl [
        | none ↦ s
        | some tpsl ↦
            if is_dormant oid s
            then s
            else if check_trigger tpsl o.is_buy trigger_px mid
            then fire_trigger env o oid mid s
            else s
      ]
    ]
  ]

  pub match_trigger_order : Env N → ℕ → Store N → Store N
  unfolding try_trigger drop_trigger
  match_trigger_order env oid s = elim (s.orders oid) [
    | none ↦ s
    | some o ↦ if is_open o.status then try_trigger env oid o s else drop_trigger oid s
  ]

  pub each : (ℕ → Store N → Store N) → List ℕ → Store N → Store N
  each step [] s = s
  each step (oid ∷ oids) s = each step oids (step oid s)

  -- Without any mid a pass does nothing.
  pub pass : List (String × N) → (ℕ → Store N → Store N) → List ℕ → Store N → Store N
  unfolding each
  pass [] step oids s = s
  pass (_ ∷ _) step oids s = each step oids s

  pub match_open_orders : Env N → Store N → Store N
  unfolding pass match_open_order
  match_open_orders env s = pass env.mids (match_open_order env) s.orders_open s

  pub match_trigger_orders : Env N → Store N → Store N
  unfolding pass match_trigger_order
  match_trigger_orders env s = pass env.mids (match_trigger_order env) s.orders_triggers s
