-- ===== src/Twaps/Pass/Indexed.antt =====
-- The positions over a pass of matchTwaps in src/worker/order-matcher.ts.
use hy_paper.Prelude.{ℕ, refl, none, some, List, [], ◌∷◌, inl, inr, Option-cases}
use hy_paper.Decimal.{Decimal}
use hy_paper.Matcher.Settlement.{IsIndexed}
use hy_paper.Orders.{na}
use hy_paper.Intake.Links.{place_orders}
use hy_paper.Intake.{PlaceOpts, OrderStatusReply}
use hy_paper.Intake.Links.Alone.{place_orders_alone}
use hy_paper.Intake.Place.Indexed.{place_single_order-IsIndexed}
use hy_paper.Twaps.{Twap, TwapState, set_twap, deactivate, log_row}
use hy_paper.Twaps.Pass.Steps.{settle_slice-settled, drop_twap-kept}
use hy_paper.Twaps.Pass.{
  TwapEnv, Action, drop, drop_malformed, finish, skip, submit, finish_twap, twap_action,
  settle_slice, submit_slice, carry_out, match_twap, match_each_twap, match_twaps,
}

module _ {N : Type 0} ⦃d : Decimal N⦄ (te : TwapEnv N) where
  abbrev pub Holds : TwapState N → Type 0
  Holds ts = IsIndexed te.intake.env.market ts.intake.store

  settle_slice-Holds :
      (id : ℕ) (t : Twap N) (replies : List (OrderStatusReply N)) (ts : TwapState N)
      → Holds ts
      → Holds (settle_slice te id t replies ts)
  unfolding set_twap
  settle_slice-Holds id t replies ts h =
      settle_slice-settled te id t ts Holds (λ filled events. h) replies

  carry_out-Holds :
      (id : ℕ) (t : Twap N) (a : Action N) (ts : TwapState N)
      → Holds ts
      → Holds (carry_out te id t a ts)
  unfolding carry_out finish_twap submit_slice set_twap deactivate log_row
  carry_out-Holds id t drop ts h = rw (drop_twap-kept te.intake.env.now id t ts t.status refl).1 h
  carry_out-Holds id t drop_malformed ts h = h
  carry_out-Holds id t finish ts h = h
  carry_out-Holds id t skip ts h = h
  carry_out-Holds id t (submit wire) ts h =
      let opts : PlaceOpts = record { expires_after = none; builder = none; twap_id = some id } in
      let sent = place_orders te.intake t.user_id (wire ∷ []) na opts ts.intake in
      let kept : IsIndexed te.intake.env.market sent.1.store =
        rw (place_orders_alone te.intake t.user_id wire opts ts.intake)
          (place_single_order-IsIndexed te.intake t.user_id wire na opts ts.intake h) in
      settle_slice-Holds id t sent.0 (record ts { intake = sent.1 }) kept

  match_twap-Holds : (id : ℕ) (ts : TwapState N) → Holds ts → Holds (match_twap te id ts)
  unfolding match_twap deactivate
  match_twap-Holds id ts h = elim (Option-cases (ts.twaps id)) [
    | inl e ↦ rw (match_twap, e) h
    | inr (t, e) ↦ rw (match_twap, e) (carry_out-Holds id t (twap_action te t) ts h)
  ]

  match_each_twap-Holds :
      (ids : List ℕ) (ts : TwapState N) → Holds ts → Holds (match_each_twap te ids ts)
  unfolding match_each_twap
  match_each_twap-Holds [] ts h = h
  match_each_twap-Holds (id ∷ ids) ts h =
      match_each_twap-Holds ids (match_twap te id ts) (match_twap-Holds id ts h)

  -- No pass breaks the sets of positions.
  pub match_twaps-IsIndexed : (ts : TwapState N) → Holds ts → Holds (match_twaps te ts)
  unfolding match_twaps
  match_twaps-IsIndexed ts h = match_each_twap-Holds ts.twaps_active ts h
