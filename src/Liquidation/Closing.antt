-- ===== src/Liquidation/Closing.antt =====
-- src/engine/liquidation.ts: the closes of a liquidation and the transaction that writes them. The
-- messages that follow it are left out.
pub mod Balance
pub mod Backstop
pub mod Listed
use Prim.Native.String.{String}
use hy_paper.Prelude.{
  ℕ, suc, Bool, true, false, not, ◌&&◌, ◌||◌, Option, none, some, List, [], ◌∷◌, if◌then◌else◌,
}
use hy_paper.Prelude.Maps.{nat_keys, string_keys, pair_keys, contains, srem, sadd, update}
use hy_paper.Decimal.{Decimal, num, add, sub, mul, div, abs, gt, is_zero, neg, round_to_decimals}
use hy_paper.Fill.{calculate_position_unrealized_pnl}
use hy_paper.Slippage.{compute_vwap}
use hy_paper.Orders.{PaperFill, Position}
use hy_paper.Store.{Store, emit, order_update_batch}
use hy_paper.Matcher.{write_balance, debit_nonzero}
use hy_paper.Ticks.{book_side}
use hy_paper.Orphans.{Update, reconcile_reduce_only_stops}
use hy_paper.Liquidation.{
  Method, market, backstop, PositionView, Assessment, LiqEnv, LiqState, PlannedClose,
  load_positions, assess_isolated, assess_cross,
}

pub liquidation_dir : Method → Bool → Bool → String
liquidation_dir market is_cross is_long = if is_long then "Close Long" else "Close Short"
liquidation_dir backstop is_cross is_long =
    if is_cross
    then (if is_long then "Liquidated Cross Long" else "Liquidated Cross Short")
    else if is_long
    then "Liquidated Isolated Long"
    else "Liquidated Isolated Short"

module _ {N : Type 0} ⦃d : Decimal N⦄ where
  -- A market liquidation walks the book, the backstop takes the position at the mark.
  pub liquidation_fill_px : LiqEnv N → PositionView N → N → Method → N
  liquidation_fill_px le p sz backstop = p.px
  liquidation_fill_px le p sz market = elim (le.env.book p.coin) [
    | none ↦ p.px
    | some book ↦
        let is_buy = not (gt p.szi (num 0)) in
        (compute_vwap (some (book_side is_buy book)) sz is_buy none p.px).fill_px
  ]

  pub liquidation_fee : LiqEnv N → Method → N → N → N
  liquidation_fee le backstop sz px = num 0
  liquidation_fee le market sz px =
      if le.env.fees.fees_enabled then mul (mul sz px) le.env.fees.fee_rate_taker else num 0

  -- `planClose`, with the numbers that it draws.
  pub plan_close : LiqEnv N → PositionView N → N → Method → ℕ → ℕ → PlannedClose N
  unfolding liquidation_fill_px liquidation_dir liquidation_fee
  plan_close le p close_abs method oid tid =
      let is_long = gt p.szi (num 0) in
      let pos_abs = abs p.szi in
      let sz = if gt close_abs pos_abs then pos_abs else close_abs in
      let px = liquidation_fill_px le p sz method in
      record {
        p = p;
        fill = record {
          coin = p.coin;
          px = px;
          sz = sz;
          is_buy = not is_long;
          time = le.env.now;
          start_position = p.szi;
          dir = liquidation_dir method p.is_cross is_long;
          closed_pnl =
              calculate_position_unrealized_pnl (if is_long then sz else neg sz) p.entry_px px;
          oid = oid;
          crossed = true;
          fee = liquidation_fee le method sz px;
          tid = tid;
          cloid = none;
          twap_id = none;
        };
        remaining = sub pos_abs sz;
      }

  -- The hash of a position that shrinks; an isolated one gives up its margin in proportion.
  pub shrunk : PositionView N → N → Position N → Position N
  shrunk p remaining q =
      let szi = if gt p.szi (num 0) then remaining else neg remaining in
      if p.is_cross
      then record q { szi = szi }
      else let keep = div remaining (abs p.szi) in
        let alloc : N = elim p.raw.margin_alloc [
          | some a ↦ a
          | none ↦ div (mul (abs p.szi) p.entry_px) (num p.leverage)
        ] in
        record q {
          szi = szi;
          margin_alloc = some (mul alloc keep);
          raw_usd = elim p.raw.raw_usd [ none ↦ q.raw_usd | some r ↦ some (mul r keep) ];
        }

  -- Takes an asset off the set of a dex, and off that of the native dex, which is USER_POSITIONS.
  pub unlist : String → String → ℕ → Store N → Store N
  unfolding update srem
  unlist user scope asset s =
      let off = λ (k : String × String) (sets : String × String → List ℕ).
        update sets k (srem asset (sets k)) in
      record s { position_assets = off (user, "") (off (user, scope) s.position_assets) }

  pub close_position : String → String → PlannedClose N → LiqState N → LiqState N
  unfolding shrunk update unlist
  close_position user scope c ls =
      let s = ls.store in
      let asset = c.p.asset in
      if is_zero c.remaining
      then record ls {
        store =
            unlist user scope asset
              (record s { positions = update s.positions (user, asset) none });
      }
      else record ls {
        store = record s {
          positions =
              update s.positions (user, asset)
                (elim (s.positions (user, asset)) [
                  | none ↦ none
                  | some q ↦ some (shrunk c.p c.remaining q)
                ]);
        };
      }

  pub log_fill : String → PaperFill N → Store N → Store N
  unfolding update
  log_fill user fill s = record s {
    user_fills = update s.user_fills user (fill ∷ s.user_fills user);
  }

  -- `queueClose`, committed.
  pub queue_close : String → String → PlannedClose N → LiqState N → LiqState N
  unfolding close_position log_fill
  queue_close user scope c ls =
      let closed = close_position user scope c ls in
      record closed {
        store =
            log_fill user c.fill
              (write_balance (user, scope) c.fill.closed_pnl c.fill.fee closed.store);
      }

  pub queue_closes : String → String → List (PlannedClose N) → LiqState N → LiqState N
  unfolding queue_close
  queue_closes user scope [] ls = ls
  queue_closes user scope (c ∷ cs) ls = queue_closes user scope cs (queue_close user scope c ls)

  -- What goes to the book of a position above 100k USDC, outside of a cooldown.
  pub slice_of : LiqEnv N → Method → Bool → PositionView N → Option N
  slice_of le backstop in_cooldown p = none
  slice_of le market in_cooldown p =
      if not in_cooldown && gt p.notional (num 100_000)
      then (let slice =
            round_to_decimals (mul (abs p.szi) (d.literal 2 1)) (le.sz_decimals_for p.asset) in
          if gt slice (num 0) then some slice else none)
      else none

  pub close_abs_of : Option N → PositionView N → N
  close_abs_of none p = abs p.szi
  close_abs_of (some slice) p = slice

  -- The loop over the targets: the closes, and whether one is partial.
  pub plan_closes :
      LiqEnv N → Method → Bool → List (PositionView N) → ℕ → ℕ → List (PlannedClose N) × Bool
  unfolding slice_of close_abs_of plan_close
  plan_closes le method in_cooldown [] oid tid = ([], false)
  plan_closes le method in_cooldown (p ∷ ps) oid tid =
      let slice = slice_of le method in_cooldown p in
      let rest = plan_closes le method in_cooldown ps (suc oid) (suc tid) in
      (
        plan_close le p (close_abs_of slice p) method oid tid ∷ rest.0,
        (elim slice [ none ↦ false | some _ ↦ true ]) || rest.1,
      )

  pub queue_vault_credit : LiqEnv N → N → LiqState N → LiqState N
  queue_vault_credit le proceeds ls =
      if gt proceeds (num 0)
      then (if le.has_vault_address
          then record ls { total_collected = add ls.total_collected proceeds }
          else ls)
      else ls

  pub transferred_of : Assessment N → N
  transferred_of a = elim a.method [ backstop ↦ a.equity | market ↦ num 0 ]

  -- The transaction of `runLiquidation`.
  pub commit :
      LiqEnv N
      → String
      → String
      → String × (String × ℕ)
      → Assessment N
      → List (PlannedClose N) × Bool
      → LiqState N
      → LiqState N
  unfolding queue_closes queue_vault_credit transferred_of
  commit le user scope cooldown_key a planned ls =
      let closed = queue_closes user scope planned.0 ls in
      let transferred = transferred_of a in
      let debited : LiqState N = record closed {
        store = debit_nonzero (user, scope) transferred closed.store;
      } in
      let credited = queue_vault_credit le transferred debited in
      if planned.1
      then record credited { cooldowns = cooldown_key ∷ credited.cooldowns }
      else credited

  -- `nextOid` and `nextTid`, once for each target.
  pub draw_numbers : List (PositionView N) → LiqState N → LiqState N
  draw_numbers [] ls = ls
  draw_numbers (p ∷ ps) ls =
      let s = ls.store in
      draw_numbers ps
        (record ls { store = record s { seq_tid = suc s.seq_tid }; seq_oid = suc ls.seq_oid })

  -- The size that a close leaves.
  pub sz_after : PlannedClose N → N
  sz_after c =
      if is_zero c.remaining
      then num 0
      else if gt c.p.szi (num 0)
      then c.remaining
      else neg c.remaining

  announce_orphans : String → List (Update N) → Store N → Store N
  announce_orphans user [] s = s
  announce_orphans user (o ∷ os) s = emit (order_update_batch user (o ∷ os)) s

  pub reconcile_closes : LiqEnv N → String → List (PlannedClose N) → Store N → Store N
  unfolding announce_orphans sz_after
  reconcile_closes le user [] s = s
  reconcile_closes le user (c ∷ cs) s =
      let reconciled = reconcile_reduce_only_stops user c.p.asset (sz_after c) le.env.now s in
      reconcile_closes le user cs (announce_orphans user reconciled.0 reconciled.1)

  pub cooldown_target : PositionView N → ℕ
  cooldown_target p = if p.is_cross then 0 else suc p.asset

  -- `runLiquidation`; it is only called with targets.
  pub run_liquidation :
      LiqEnv N → String → String → Assessment N → List (PositionView N) → LiqState N → LiqState N
  unfolding plan_closes draw_numbers commit reconcile_closes cooldown_target contains
  run_liquidation le user scope a [] ls = ls
  run_liquidation le user scope a (first ∷ targets) ls =
      let key : String × (String × ℕ) = (user, (scope, cooldown_target first)) in
      let planned =
        plan_closes le a.method (contains key ls.cooldowns) (first ∷ targets) (suc ls.seq_oid)
          (suc ls.store.seq_tid) in
      let committed = commit le user scope key a planned (draw_numbers (first ∷ targets) ls) in
      record committed { store = reconcile_closes le user planned.0 committed.store }
