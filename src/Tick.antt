-- ===== src/Tick.antt =====
-- src/worker/order-matcher.ts, matchAll: one whole tick.
pub mod Indexed
mod Examples
use hy_paper.Prelude.{Bool, true, false, if◌then◌else◌}
use hy_paper.Decimal.{Decimal}
use hy_paper.Store.{Store}
use hy_paper.Ticks.{match_open_orders, match_trigger_orders}
use hy_paper.TrailingTicks.{match_trailing_stops}
use hy_paper.Expiry.{sweep_expired}
use hy_paper.Twaps.{TwapState}
use hy_paper.Twaps.Pass.{TwapEnv, match_twaps}

module _ {N : Type 0} ⦃d : Decimal N⦄ where
  pub put_store : Store N → TwapState N → TwapState N
  put_store s ts = let st = ts.intake in record ts { intake = record st { store = s } }

  -- The passes over the orders, with whether they ran to their end.
  pub match_orders : TwapEnv N → Store N → Bool × Store N
  match_orders te s =
      let env = te.intake.env in
      match_trailing_stops env (match_trigger_orders env (match_open_orders env s))

  -- What follows them.
  pub match_rest : TwapEnv N → TwapState N → TwapState N
  unfolding put_store
  match_rest te ts =
      let after = match_twaps te ts in
      put_store (sweep_expired te.intake.env.now after.intake.store) after

  -- A pass that throws ends the tick, and what was written stays.
  pub match_all : TwapEnv N → TwapState N → TwapState N
  unfolding match_orders match_rest put_store
  match_all te ts =
      let matched = match_orders te ts.intake.store in
      let after = put_store matched.1 ts in if matched.0 then match_rest te after else after
