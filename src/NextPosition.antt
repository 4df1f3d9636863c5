-- ===== src/NextPosition.antt =====
-- src/worker/order-matcher.ts: how much of an order a fill takes, and the position that it leaves.
pub mod Size
mod Examples
use hy_paper.Prelude.{ℕ, Bool, true, false, not, ◌&&◌, ◌||◌, Option, none, some, if◌then◌else◌}
use hy_paper.Decimal.{Decimal, num, add, sub, mul, div, abs, gt, lt, is_zero}
use hy_paper.Fill.{new_szi, is_increasing, new_entry_px}
use hy_paper.AssetMeta.{LeverageSetting}
use hy_paper.MarkFeed.{get_fresh_mark}
use hy_paper.Orders.{Order, Position}
use hy_paper.Env.{Env}

module _ {N : Type 0} ⦃d : Decimal N⦄ where
  unfoldable pub or_zero : Option N → N
  or_zero none = num 0
  or_zero (some a) = a

  -- The hash of a position that may be missing, read field by field.
  unfoldable pub current_szi : Option (Position N) → N
  current_szi none = num 0
  current_szi (some p) = p.szi

  unfoldable pub current_entry_px : Option (Position N) → N
  current_entry_px none = num 0
  current_entry_px (some p) = p.entry_px

  -- How much of an order a fill may take; none, if nothing.
  unfoldable pub fill_size : Order N → N → Option N
  fill_size order szi =
      let fill_sz = sub order.sz order.filled_sz in
      if is_zero fill_sz
      then none
      else if order.reduce_only
      then (if is_zero szi
          then none
          else if (gt szi (num 0) && order.is_buy) || (not (gt szi (num 0)) && not order.is_buy)
          then none
          else if gt fill_sz (abs szi)
          then some (abs szi)
          else some fill_sz)
      else some fill_sz

  unfoldable pub prev_field : (Position N → Option N) → Option (Position N) → Option N
  prev_field f none = none
  prev_field f (some p) = f p

  unfoldable pub or_else : Option N → N → N
  or_else none b = b
  or_else (some a) b = a

  -- The margin of an isolated position after a fill: `marginAlloc`, and `rawUsd`, where it is written.
  unfoldable pub isolated_fields :
      Order N → N → N → N → ℕ → Option (Position N) → Option N × Option N
  unfolding current_szi current_entry_px prev_field or_else
  isolated_fields order fill_sz fill_px alloc_px leverage prev =
      let szi = current_szi prev in
      let cur_abs = abs szi in
      let lev = num leverage in
      let raw = prev_field (λ p. p.raw_usd) prev in
      let prev_alloc =
        or_else (prev_field (λ p. p.margin_alloc) prev)
          (div (mul cur_abs (current_entry_px prev)) lev) in
      let next = new_szi order.is_buy fill_sz szi in
      if is_increasing order.is_buy szi
      then (
        some (add (if is_zero szi then num 0 else prev_alloc) (div (mul fill_sz alloc_px) lev)),
        raw,
      )
      else if gt fill_sz cur_abs
      then (some (div (mul (abs next) alloc_px) lev), some (num 0))
      else let keep = div (abs next) cur_abs in
        (some (mul prev_alloc keep), elim raw [ none ↦ none | some r ↦ some (mul r keep) ])

  unfoldable pub margin_fields :
      LeverageSetting → Order N → N → N → N → Option (Position N) → Option N × Option N
  unfolding isolated_fields
  margin_fields setting order fill_sz fill_px alloc_px prev =
      if setting.is_cross
      then (prev_field (λ p. p.margin_alloc) prev, prev_field (λ p. p.raw_usd) prev)
      else isolated_fields order fill_sz fill_px alloc_px setting.leverage prev

  -- The position that a fill leaves, if its size is not zero.
  unfoldable pub next_position :
      LeverageSetting → Order N → N → N → N → Option (Position N) → Position N
  unfolding margin_fields current_szi current_entry_px or_zero prev_field
  next_position setting order fill_sz fill_px alloc_px prev =
      let szi = current_szi prev in
      let fields = margin_fields setting order fill_sz fill_px alloc_px prev in
      record {
        coin = order.coin;
        szi = new_szi order.is_buy fill_sz szi;
        entry_px = new_entry_px order.is_buy fill_sz fill_px szi (current_entry_px prev);
        cum_funding = or_zero (prev_field (λ p. some p.cum_funding) prev);
        cum_funding_since_open =
            if is_zero szi
            then num 0
            else or_zero (prev_field (λ p. some p.cum_funding_since_open) prev);
        cum_funding_since_change = num 0;
        margin_alloc = fields.0;
        raw_usd = fields.1;
      }

  unfoldable pub alloc_px : Env N → Order N → N → N
  unfolding or_else
  alloc_px env order fill_px = or_else (get_fresh_mark (env.ctx order.coin) env.now) fill_px
