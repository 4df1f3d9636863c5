-- ===== src/Trailing/Activation.antt =====
-- When a stop of src/engine/trailing-math.ts wakes up, and that an evaluation never throws.
use hy_paper.Prelude.{
  ◌≡◌, refl, true, false, none, some, List, [], ◌∷◌, arith, ◌⊎◌, inl, inr, Bool-cases,
}
use hy_paper.Decimal.{Decimal}
use hy_paper.Trailing.{
  TrailingParams, TrailingState, TrailingEval, reached, step_state, report, evaluate_trailing,
  evaluate_all, compute_trigger, compute_limit, crosses, ratchet,
}
use hy_paper.Trailing.Watermark.{active, active_eval, evaluate-active}

module _ {N : Type 0} ⦃d : Decimal N⦄ where
  abbrev pub waiting : TrailingState N
  waiting = record { activated = false; best = none }

  -- What the order hash always holds of a trailing stop: a watermark exactly when it is activated.
  abbrev pub IsWellFormed : TrailingState N → Type 0
  IsWellFormed s = (s ≡ waiting) ⊎ ((b : N) × (s ≡ active b))

  unreached-activation_px :
      (p : TrailingParams N) (m : N)
      → reached p m ≡ false
      → (act : N) × (p.activation_px ≡ some act)
  unfolding reached
  unreached-activation_px p m h = ground arith

  evaluate-unreached :
      (p : TrailingParams N) (m : N)
      → reached p m ≡ false
      → (ev : TrailingEval N) × (evaluate_trailing p waiting m ≡ some ev)
        × (ev.state ≡ waiting)
        × (ev.fire ≡ false)
  unfolding evaluate_trailing step_state report
  evaluate-unreached p m h =
      let (act, e) = unreached-activation_px p m h in
      (
        record {
          state = waiting;
          trigger_px = none;
          limit_px = compute_limit p (compute_trigger p act);
          fire = false;
        },
        ground arith,
        refl,
        refl,
      )

  -- The tick that activates: the watermark starts at its mark.
  abbrev waking_eval : TrailingParams N → N → TrailingEval N
  waking_eval p m = record {
    state = active m;
    trigger_px = some (compute_trigger p m);
    limit_px = compute_limit p (compute_trigger p m);
    fire = crosses p m (compute_trigger p m);
  }

  evaluate-reached :
      (p : TrailingParams N) (m : N)
      → reached p m ≡ true
      → evaluate_trailing p waiting m ≡ some (waking_eval p m)
  unfolding evaluate_trailing step_state report
  evaluate-reached p m h = ground arith

  pub evaluate-IsWellFormed :
      (p : TrailingParams N) (s : TrailingState N) (m : N)
      → IsWellFormed s
      → (ev : TrailingEval N) × (evaluate_trailing p s m ≡ some ev)
        × IsWellFormed ev.state
        × (s.activated ≡ true → ev.state.activated ≡ true)
        × (ev.fire ≡ true → ev.state.activated ≡ true)
  evaluate-IsWellFormed p s m (inr (b, e)) = (
    active_eval p b m,
    rw e (evaluate-active p b m),
    inr (ratchet p b m, refl),
    λ _. refl,
    λ _. refl,
  )
  evaluate-IsWellFormed p s m (inl e) = elim (Bool-cases (reached p m)) [
    | inl r ↦ (waking_eval p m, rw e (evaluate-reached p m r), inr (m, refl), λ _. refl, λ _. refl)
    | inr r ↦
        let (ev, g, same, quiet) = evaluate-unreached p m r in
        (ev, rw e g, inl same, λ h. ground arith, λ h. ground arith)
  ]

  -- From a well-formed state no run of ticks throws, its states stay well-formed, and a stop that is
  -- activated stays so.
  pub evaluate_all_total :
      (p : TrailingParams N) (s : TrailingState N) (ms : List N)
      → IsWellFormed s
      → (s' : TrailingState N) × (evaluate_all p s ms ≡ some s')
        × IsWellFormed s'
        × (s.activated ≡ true → s'.activated ≡ true)
  unfolding evaluate_all
  evaluate_all_total p s [] w = (s, refl, w, λ h. h)
  evaluate_all_total p s (m ∷ ms) w =
      let (ev, e, w', keep, _) = evaluate-IsWellFormed p s m w in
      let (s', e', w'', keep') = evaluate_all_total p ev.state ms w' in
      (s', rw e e', w'', λ h. keep' (keep h))
