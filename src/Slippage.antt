-- ===== src/Slippage.antt =====
-- src/utils/slippage.ts: the average price of walking an order book.
pub mod Limit
pub mod Bounds
mod Examples
use hy_paper.Prelude.{Bool, true, false, Option, none, some, List, [], ◌∷◌, if◌then◌else◌}
use hy_paper.Decimal.{Decimal, num, add, sub, mul, div, gt, lt, lte, gte, is_zero}

-- One level of the book; the count of its orders is not read.
pub record Level (N : Type 0) : Type 0 where
  pub px : N
  pub sz : N

pub data Source : Type 0 where
  vwap fallback : Source

pub record VwapResult (N : Type 0) : Type 0 where
  pub fill_px : N
  pub source : Source

pub record Totals (N : Type 0) : Type 0 where
  pub notional : N
  pub filled : N

module _ {N : Type 0} ⦃d : Decimal N⦄ where
  -- The price lies on the wrong side of the limit; without a limit none does.
  unfoldable pub beyond : Option N → Bool → N → Bool
  beyond none is_buy px = false
  beyond (some limit_px) is_buy px = if is_buy then gt px limit_px else lt px limit_px

  pub clamp : Option N → Bool → N → N
  unfolding beyond
  clamp none is_buy px = px
  clamp (some limit_px) is_buy px = if beyond (some limit_px) is_buy px then limit_px else px

  pub take_level : N → Level N → Totals N → Totals N
  take_level target level t =
      let remaining = sub target t.filled in
      let taken = if lte level.sz remaining then level.sz else remaining in
      record { notional = add t.notional (mul taken level.px); filled = add t.filled taken }

  -- The loop over the levels, with its two breaks.
  pub walk : Option N → Bool → N → List (Level N) → Totals N → Totals N
  unfolding beyond take_level
  walk limit_px is_buy target [] t = t
  walk limit_px is_buy target (level ∷ levels) t =
      let rest = walk limit_px is_buy target levels (take_level target level t) in
      if gte t.filled target then t else if beyond limit_px is_buy level.px then t else rest

  pub worst_px : Level N → List (Level N) → N
  worst_px level [] = level.px
  worst_px level (next ∷ levels) = worst_px next levels

  -- The part that the book cannot fill is priced at its worst level, within the limit.
  pub fill_rest : N → N → Totals N → Totals N
  fill_rest target fill_at_px t =
      if lt t.filled target
      then record {
        notional = add t.notional (mul (sub target t.filled) fill_at_px);
        filled = target;
      }
      else t

  pub no_totals : Totals N
  no_totals = record { notional = num 0; filled = num 0 }

  pub average : Option N → Bool → N → N → Totals N → N → VwapResult N
  unfolding fill_rest clamp
  average limit_px is_buy target worst t fallback_px =
      if is_zero t.filled
      then record { fill_px = fallback_px; source = fallback }
      else let full = fill_rest target (clamp limit_px is_buy worst) t in
        record { fill_px = clamp limit_px is_buy (div full.notional full.filled); source = vwap }

  pub compute_vwap : Option (List (Level N)) → N → Bool → Option N → N → VwapResult N
  unfolding average walk worst_px no_totals
  compute_vwap none sz is_buy limit_px fallback_px = record {
    fill_px = fallback_px;
    source = fallback;
  }
  compute_vwap (some []) sz is_buy limit_px fallback_px = record {
    fill_px = fallback_px;
    source = fallback;
  }
  compute_vwap (some (level ∷ levels)) sz is_buy limit_px fallback_px =
      average limit_px is_buy sz (worst_px level levels)
        (walk limit_px is_buy sz (level ∷ levels) no_totals) fallback_px
