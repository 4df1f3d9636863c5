-- ===== src/Twaps/Pass/Ticks.antt =====
-- One tick of matchTwaps over TWAPs whose set and rows agree with their statuses.
use hy_paper.Prelude.{
  ℕ, ◌≡◌, refl, sym, ◌∙◌, Bool, true, false, Option, none, some, List, [], ◌∷◌, inl, inr, ◌==◌,
  Bool-cases, Option-cases, arith,
}
use hy_paper.Prelude.Maps.{nat_keys, contains, contains_head, update}
use hy_paper.Decimal.{Decimal}
use hy_paper.Intake.{OrderStatusReply}
use hy_paper.Twaps.{
  Twap, TwapStatus, running, finished, cancelled, is_running, TwapState, set_twap, deactivate,
  row_of, log_row,
}
use hy_paper.Twaps.Pass.{
  TwapEnv, Action, drop, drop_malformed, finish, skip, submit, finish_twap, drop_twap, scheduled,
  twap_action, settle_slice, submit_slice, carry_out, match_twap, match_each_twap, match_twaps,
}
use hy_paper.Twaps.Pass.Actions.{Proceeds, dropped_action, twap_action-Proceeds}
use hy_paper.Twaps.Pass.Steps.{settle_slice-settled, drop_twap-kept}
use hy_paper.Twaps.Sound.{running_at, IsFormed, Sound, gone-Sound, keep-Sound, end-Sound}

abbrev is_cancelled : TwapStatus → Bool
is_cancelled cancelled = true
is_cancelled _ = false

finished_of : (s : TwapStatus) → is_running s ≡ false → is_cancelled s ≡ false → s ≡ finished
finished_of running h k = cc
finished_of finished h k = refl
finished_of cancelled h k = cc

status_uncancelled : (s : TwapStatus) → is_running s ≡ true → is_cancelled s ≡ false
status_uncancelled running h = refl
status_uncancelled finished h = cc
status_uncancelled cancelled h = cc

module _ {N : Type 0} where
  -- The set of the active TWAPs and their rows agree with their statuses.
  abbrev pub IsSound : TwapState N → Type 0
  IsSound ts = Sound ts.twaps ts.twaps_active ts.history ts.seq_twap

  abbrev cancelled_at : Option (Twap N) → Bool
  cancelled_at none = false
  cancelled_at (some t) = is_cancelled t.status

  pub IsFormed-as :
      (t t' : Twap N)
      → t'.total_size ≡ t.total_size
      → t'.start_time ≡ t.start_time
      → t'.end_time ≡ t.end_time
      → IsFormed t
      → IsFormed t'
  IsFormed-as t t' a b c f = record {
    total = f.total;
    start = f.start;
    end_ = f.end_;
    sized = a ∙ f.sized;
    starts = b ∙ f.starts;
    ends = c ∙ f.ends;
  }

module _ {N : Type 0} ⦃d : Decimal N⦄ (te : TwapEnv N) where
  module _ (id : ℕ) (t : Twap N) (r : is_running t.status ≡ true) (f : IsFormed t) where
    settle_slice-IsSound :
        (replies : List (OrderStatusReply N)) (ts : TwapState N)
        → IsSound ts
        → ts.twaps id ≡ some t
        → IsSound (settle_slice te id t replies ts)
    unfolding set_twap scheduled
    settle_slice-IsSound replies ts h e =
        settle_slice-settled te id t ts IsSound
          (λ filled events.
            keep-Sound ts.twaps ts.twaps_active ts.history ts.seq_twap h id t e r _ r
              (IsFormed-as t _ refl refl refl f))
          replies

    carry_out-IsSound :
        (a : Action N) (ts : TwapState N)
        → Proceeds a
        → IsSound ts
        → ts.twaps id ≡ some t
        → IsSound (carry_out te id t a ts)
    unfolding carry_out finish_twap submit_slice set_twap deactivate row_of log_row
    carry_out-IsSound drop ts p h e = absurd p
    carry_out-IsSound drop_malformed ts p h e = absurd p
    carry_out-IsSound finish ts p h e =
        end-Sound ts.twaps ts.twaps_active ts.history ts.seq_twap h id t e r _ _ refl
          (IsFormed-as t _ refl refl refl f) refl (finished, te.intake.env.now, refl)
    carry_out-IsSound skip ts p h e = h
    carry_out-IsSound (submit wire) ts p h e = settle_slice-IsSound _ (record ts { intake = _ }) h e

  drop_twap-finished :
      (id : ℕ) (t : Twap N) (ts : TwapState N)
      → t.status ≡ finished
      → drop_twap te.intake.env.now id t ts ≡ deactivate id ts
  unfolding drop_twap
  drop_twap-finished id t ts e = rw (drop_twap, e) refl

  match_twap-IsSound :
      (id : ℕ) (ts : TwapState N)
      → cancelled_at (ts.twaps id) ≡ false
      → IsSound ts
      → IsSound (match_twap te id ts)
  unfolding match_twap deactivate carry_out
  match_twap-IsSound id ts open_ h = elim (Option-cases (ts.twaps id)) [
    | inl e ↦
        rw (match_twap, e)
          (gone-Sound ts.twaps ts.twaps_active ts.history ts.seq_twap h id (rw e refl))
    | inr (t, e) ↦
        let f = (h id).formed t e in
        elim (Bool-cases (is_running t.status)) [
          | inl r ↦
              rw (match_twap, e)
                (carry_out-IsSound id t r f (twap_action te t) ts (twap_action-Proceeds te t r f) h
                  e)
          | inr over ↦
              let live = rw e at open_ in
              rw
                (
                  match_twap,
                  e,
                  dropped_action te t over,
                  drop_twap-finished id t ts (finished_of t.status over live),
                )
                (gone-Sound ts.twaps ts.twaps_active ts.history ts.seq_twap h id
                  (rw (e, over) refl))
        ]
  ]

  update-uncancelled :
      (twaps : ℕ → Option (Twap N)) (id j : ℕ) (t : Twap N)
      → is_cancelled t.status ≡ false
      → cancelled_at (twaps j) ≡ false
      → cancelled_at (update twaps id (some t) j) ≡ false
  unfolding update
  update-uncancelled twaps id j t h k = elim (Bool-cases (id == j)) [
    | inl same ↦ rw same h
    | inr other ↦ rw other k
  ]

  module _ (id j : ℕ) (t : Twap N) (live : is_cancelled t.status ≡ false) where
    settle_slice-uncancelled :
        (replies : List (OrderStatusReply N)) (ts : TwapState N)
        → cancelled_at (ts.twaps j) ≡ false
        → cancelled_at ((settle_slice te id t replies ts).twaps j) ≡ false
    unfolding set_twap scheduled
    settle_slice-uncancelled replies ts h =
        settle_slice-settled te id t ts (λ us. cancelled_at (us.twaps j) ≡ false)
          (λ filled events. update-uncancelled ts.twaps id j _ live h) replies

    carry_out-uncancelled :
        (a : Action N) (ts : TwapState N)
        → cancelled_at (ts.twaps j) ≡ false
        → cancelled_at ((carry_out te id t a ts).twaps j) ≡ false
    unfolding carry_out finish_twap submit_slice set_twap deactivate log_row
    carry_out-uncancelled drop ts h =
        rw (drop_twap-kept te.intake.env.now id t ts t.status refl).0 h
    carry_out-uncancelled drop_malformed ts h = update-uncancelled ts.twaps id j _ refl h
    carry_out-uncancelled finish ts h = update-uncancelled ts.twaps id j _ refl h
    carry_out-uncancelled skip ts h = h
    carry_out-uncancelled (submit wire) ts h =
        settle_slice-uncancelled _ (record ts { intake = _ }) h

  match_twap-uncancelled :
      (id j : ℕ) (ts : TwapState N)
      → cancelled_at (ts.twaps id) ≡ false
      → cancelled_at (ts.twaps j) ≡ false
      → cancelled_at ((match_twap te id ts).twaps j) ≡ false
  unfolding match_twap deactivate
  match_twap-uncancelled id j ts live h = elim (Option-cases (ts.twaps id)) [
    | inl e ↦ rw (match_twap, e) h
    | inr (t, e) ↦
        rw (match_twap, e) (carry_out-uncancelled id j t (rw e at live) (twap_action te t) ts h)
  ]

  match_each_twap-IsSound :
      (ids : List ℕ) (ts : TwapState N)
      → ((j : ℕ) → contains j ids ≡ true → cancelled_at (ts.twaps j) ≡ false)
      → IsSound ts
      → IsSound (match_each_twap te ids ts)
  unfolding match_each_twap contains
  match_each_twap-IsSound [] ts live h = h
  match_each_twap-IsSound (id ∷ ids) ts live h =
      let here = live id (contains_head id ids) in
      match_each_twap-IsSound ids (match_twap te id ts)
        (λ j k. match_twap-uncancelled id j ts here (live j (ground (arith, k))))
        (match_twap-IsSound id ts here h)

  running-uncancelled : (o : Option (Twap N)) → running_at o ≡ true → cancelled_at o ≡ false
  running-uncancelled none h = cc
  running-uncancelled (some t) h = status_uncancelled t.status h

  pub match_twaps-IsSound : (ts : TwapState N) → IsSound ts → IsSound (match_twaps te ts)
  unfolding match_twaps
  match_twaps-IsSound ts h =
      match_each_twap-IsSound ts.twaps_active ts
        (λ j k. running-uncancelled (ts.twaps j) (sym (h j).listed ∙ k)) h
