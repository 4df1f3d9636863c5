-- ===== src/Env.antt =====
-- What src/worker/order-matcher.ts reads on a tick and does not write.
use Prim.Native.String.{String}
use text.Mathlib.Text.{◌==◌ as str_eq}
use hy_paper.Prelude.{ℕ, Option, none, some, List, [], ◌∷◌, if◌then◌else◌}
use hy_paper.Fill.{Fees}
use hy_paper.AssetMeta.{Market}
use hy_paper.MarkFeed.{MarkCtx}
use hy_paper.Slippage.{Level}

-- An order book: the levels of its two sides.
pub record Book (N : Type 0) : Type 0 where
  pub bids : List (Level N)
  pub asks : List (Level N)

-- The clock, the configuration, the market data. `book` is the
-- result of `getL2Book`, which is none when neither the feed nor the fallback has a book.
pub record Env (N : Type 0) : Type 0 where
  pub now : ℕ
  pub fees : Fees N
  pub market : Market
  pub mids : List (String × N)
  pub ctx : String → MarkCtx N
  pub book : String → Option (Book N)

module _ {N : Type 0} where
  -- HGET on `market:mids`
  unfoldable pub mid_of : String → List (String × N) → Option N
  mid_of coin [] = none
  mid_of coin ((name, px) ∷ mids) = if str_eq name coin then some px else mid_of coin mids
