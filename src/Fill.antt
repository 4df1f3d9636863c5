-- ===== src/Fill.antt =====
-- The arithmetic of one fill: `executeFillWithSize` of src/worker/order-matcher.ts, and the profit of
-- a position, of src/engine/margin.ts.
pub mod Equity
use Prim.Native.String.{String}
use hy_paper.Prelude.{ℕ, Bool, true, false, not, ◌&&◌, ◌||◌, Option, none, some, if◌then◌else◌}
use hy_paper.Decimal.{Decimal, num, add, sub, mul, div, abs, gt, lt, is_zero, neg, min}

-- The fees of src/config.ts.
pub record Fees (N : Type 0) : Type 0 where
  pub fees_enabled : Bool
  pub fee_rate_taker : N
  pub fee_rate_maker : N

-- `builder: {b, f}` of an order: an address, and tenths of a basis point.
pub record Builder : Type 0 where
  pub b : String
  pub f : ℕ

module _ {N : Type 0} ⦃d : Decimal N⦄ where
  unfoldable pub calculate_position_unrealized_pnl : N → N → N → N
  calculate_position_unrealized_pnl szi entry_px mark_px =
      if is_zero szi
      then num 0
      else if gt szi (num 0)
      then mul (sub mark_px entry_px) (abs szi)
      else mul (sub entry_px mark_px) (abs szi)

  -- Sizes are signed: a sell fills a negative size.
  unfoldable pub signed_fill_sz : Bool → N → N
  signed_fill_sz is_buy fill_sz = if is_buy then fill_sz else neg fill_sz

  unfoldable pub new_szi : Bool → N → N → N
  unfolding signed_fill_sz
  new_szi is_buy fill_sz current_szi = add current_szi (signed_fill_sz is_buy fill_sz)

  unfoldable pub is_increasing : Bool → N → Bool
  is_increasing is_buy current_szi =
      (gt current_szi (num 0) && is_buy)
      || ((lt current_szi (num 0) && not is_buy) || is_zero current_szi)

  -- The average entry price, weighted by size.
  unfoldable pub average_entry_px : N → N → N → N → N
  average_entry_px fill_sz fill_px current_szi entry_px =
      let current_notional = mul (abs current_szi) entry_px in
      let fill_notional = mul fill_sz fill_px in
      div (add current_notional fill_notional) (add (abs current_szi) fill_sz)

  unfoldable pub new_entry_px : Bool → N → N → N → N → N
  unfolding is_increasing
  new_entry_px is_buy fill_sz fill_px current_szi entry_px =
      if is_increasing is_buy current_szi
      then (if is_zero current_szi
          then fill_px
          else average_entry_px fill_sz fill_px current_szi entry_px)
      else if gt fill_sz (abs current_szi)
      then fill_px
      else entry_px

  unfoldable pub closed_pnl : Bool → N → N → N → N → N
  unfolding is_increasing
  closed_pnl is_buy fill_sz fill_px current_szi entry_px =
      if is_increasing is_buy current_szi
      then num 0
      else let closing_sz = min fill_sz (abs current_szi) in
        if gt current_szi (num 0)
        then mul (sub fill_px entry_px) closing_sz
        else mul (sub entry_px fill_px) closing_sz

  unfoldable pub exchange_fee_rate : Fees N → Bool → N
  exchange_fee_rate c is_taker =
      if c.fees_enabled then (if is_taker then c.fee_rate_taker else c.fee_rate_maker) else num 0

  unfoldable pub builder_fee : Fees N → Bool → Option Builder → N → N
  builder_fee c is_taker none notional = num 0
  builder_fee c is_taker (some builder) notional =
      if c.fees_enabled && is_taker then mul notional (d.literal builder.f 6) else num 0

  unfoldable pub fill_fee : Fees N → Bool → Option Builder → N → N → N
  unfolding exchange_fee_rate builder_fee
  fill_fee c is_taker builder fill_sz fill_px =
      let notional = mul fill_sz fill_px in
      add (mul notional (exchange_fee_rate c is_taker)) (builder_fee c is_taker builder notional)

  -- `getFillDir`
  unfoldable pub get_fill_dir : N → N → String
  get_fill_dir start_position signed_fill_sz =
      if is_zero start_position
      then (if gt signed_fill_sz (num 0) then "Open Long" else "Open Short")
      else if is_zero (add start_position signed_fill_sz)
      then (if gt start_position (num 0) then "Close Long" else "Close Short")
      else if gt signed_fill_sz (num 0)
      then "Buy"
      else "Sell"
