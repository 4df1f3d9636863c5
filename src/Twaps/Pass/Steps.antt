-- ===== src/Twaps/Pass/Steps.antt =====
-- What the steps of matchTwaps leave of a TWAP and of the rest, for the proofs about them.
use hy_paper.Prelude.{ℕ, ◌≡◌, refl, List, [], ◌∷◌}
use hy_paper.Decimal.{Decimal}
use hy_paper.Intake.{OrderStatusReply, resting, filled_at, refused, success}
use hy_paper.Twaps.{
  Twap, TwapStatus, running, finished, cancelled, TwapState, TwapEvent, set_twap, deactivate,
  log_row,
}
use hy_paper.Twaps.Pass.{TwapEnv, drop_twap, scheduled, settle_slice}

module _ {N : Type 0} ⦃d : Decimal N⦄ (te : TwapEnv N) (id : ℕ) (t : Twap N)
    (ts : TwapState N) where
  -- The state after a slice: the TWAP is scheduled with some size filled, and some events are there.
  abbrev pub settled : N → List (TwapEvent N) → TwapState N
  settled filled events =
      record (set_twap id (scheduled te id (record t { filled_size = filled })) ts) {
        twap_events = events;
      }

  -- What holds with any size filled and any events holds after a slice is settled.
  pub settle_slice-settled :
      (P : TwapState N → Type 0)
      → ((filled : N) (events : List (TwapEvent N)) → P (settled filled events))
      → (replies : List (OrderStatusReply N)) → P (settle_slice te id t replies ts)
  unfolding settle_slice set_twap scheduled
  settle_slice-settled P h (filled_at sz px oid cloid ∷ replies) = h _ _
  settle_slice-settled P h [] = h t.filled_size ts.twap_events
  settle_slice-settled P h (resting oid cloid ∷ replies) = h t.filled_size ts.twap_events
  settle_slice-settled P h (refused x ∷ replies) = h t.filled_size ts.twap_events
  settle_slice-settled P h (success ∷ replies) = h t.filled_size ts.twap_events

module _ {N : Type 0} where
  pub drop_twap-kept :
      (now id : ℕ) (t : Twap N) (ts : TwapState N) (status : TwapStatus)
      → t.status ≡ status
      → ((drop_twap now id t ts).twaps ≡ ts.twaps) × ((drop_twap now id t ts).intake ≡ ts.intake)
  unfolding drop_twap deactivate log_row
  drop_twap-kept now id t ts running e = rw (drop_twap, e) (refl, refl)
  drop_twap-kept now id t ts finished e = rw (drop_twap, e) (refl, refl)
  drop_twap-kept now id t ts cancelled e = rw (drop_twap, e) (refl, refl)
