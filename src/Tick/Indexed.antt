-- ===== src/Tick/Indexed.antt =====
-- The positions over one whole tick of src/worker/order-matcher.ts.
use hy_paper.Prelude.{inl, inr, Bool-cases}
use hy_paper.Decimal.{Decimal}
use hy_paper.Matcher.Settlement.{IsIndexed}
use hy_paper.TrailingTicks.Indexed.{SameHoldings-IsIndexed, full_tick_keeps_positions-IsIndexed}
use hy_paper.Expiry.{sweep_expired}
use hy_paper.Expiry.Swept.{sweep_expired-entry}
use hy_paper.Twaps.{TwapState}
use hy_paper.Twaps.Pass.{TwapEnv, match_twaps}
use hy_paper.Twaps.Pass.Indexed.{match_twaps-IsIndexed}
use hy_paper.Tick.{put_store, match_orders, match_rest, match_all}

module _ {N : Type 0} ⦃d : Decimal N⦄ (te : TwapEnv N) where
  match_rest-IsIndexed :
      (ts : TwapState N)
      → IsIndexed te.intake.env.market ts.intake.store
      → IsIndexed te.intake.env.market (match_rest te ts).intake.store
  unfolding match_rest put_store
  match_rest-IsIndexed ts h =
      let after = (match_twaps te ts).intake.store in
      SameHoldings-IsIndexed te.intake.env.market after (sweep_expired te.intake.env.now after)
        (sweep_expired-entry te.intake.env.now after).1 (match_twaps-IsIndexed te ts h)

  -- A whole tick, over the resting orders, the trigger orders, the trailing stops, the TWAPs and the deadlines,
  -- keeps the sets of positions in step with the positions and leaves no position of size zero, whatever fills,
  -- is placed, is cancelled or throws.
  pub match_all_keeps_positions-IsIndexed :
      (ts : TwapState N)
      → IsIndexed te.intake.env.market ts.intake.store
      → IsIndexed te.intake.env.market (match_all te ts).intake.store
  unfolding match_all match_orders put_store
  match_all_keeps_positions-IsIndexed ts h =
      let kept = full_tick_keeps_positions-IsIndexed te.intake.env ts.intake.store h in
      let matched = match_orders te ts.intake.store in
      elim (Bool-cases matched.0) [
        | inl ran ↦ rw (match_all, ran) (match_rest-IsIndexed (put_store matched.1 ts) kept)
        | inr threw ↦ rw (match_all, threw) kept
      ]
