-- ===== src/Twaps/Pass/Pace.antt =====
-- When matchTwaps of src/worker/order-matcher.ts submits the slices of a TWAP.
use hy_paper.Prelude.{
  ℕ, ◌+◌, ◌≤◌, ◌<◌, ◌≡◌, refl, ap, ◌∙◌, Bool, true, false, Option, none, some, List, [], ◌∷◌, inl,
  inr, Option-cases, if◌then◌else◌, arith,
}
use mathlib.Core.Path.{subst}
use hy_paper.Prelude.Maps.{nat_keys, update, beq_refl}
use hy_paper.Decimal.{Decimal}
use hy_paper.Intake.{IntakeState, OrderWire, OrderStatusReply}
use hy_paper.Twaps.{Twap, is_running, TwapState, set_twap, deactivate, log_row}
use hy_paper.Twaps.Pass.Steps.{settle_slice-settled, drop_twap-kept}
use hy_paper.Twaps.Pass.{
  TwapEnv, Action, drop, drop_malformed, finish, skip, submit, too_soon, next_at, finish_twap,
  sized_action, twap_action, scheduled, settle_slice, submit_slice, carry_out, match_twap,
}

-- Every time is at a bound or later and before the end, and the next is a gap later.
abbrev pub Spaced : ℕ → ℕ → ℕ → List ℕ → Type 0
Spaced gap lo end_ [] = Unit {0}
Spaced gap lo end_ (x ∷ xs) = (lo ≤ x) × (x < end_) × Spaced gap (x + gap) end_ xs

-- Half a minute, or half of that for a TWAP whose slices are randomized.
abbrev pub min_gap : Bool → ℕ
min_gap randomize = if randomize then 15_000 else 30_000

module _ {N : Type 0} ⦃d : Decimal N⦄ where
  slice_at : TwapEnv N → Action N → List ℕ → List ℕ
  slice_at te (submit wire) times = te.intake.env.now ∷ times
  slice_at te _ times = times

  slices_at : TwapEnv N → Option (Twap N) → List ℕ → List ℕ
  unfolding slice_at
  slices_at te none times = times
  slices_at te (some t) times = slice_at te (twap_action te t) times

  -- The times at which a run of ticks submits slices of a TWAP; the orders may change in between.
  pub submitted : ℕ → List (TwapEnv N × IntakeState N) → TwapState N → List ℕ
  unfolding slices_at
  submitted id [] ts = []
  submitted id ((te, st) ∷ ticks) ts =
      slices_at te (ts.twaps id) (submitted id ticks (match_twap te id (record ts { intake = st })))

  submit-due :
      (te : TwapEnv N) (t : Twap N) (wire : OrderWire N) (end_ : ℕ)
      → twap_action te t ≡ submit wire
      → t.end_time ≡ some end_
      → (is_running t.status ≡ true)
        × (too_soon te.intake.env.now t ≡ false)
        × (te.intake.env.now < end_)
  unfolding twap_action sized_action
  submit-due te t wire end_ h e = (ground arith, ground arith, ground arith)

  -- No slice of the TWAP is due before a time, and these are its end and whether it is randomized.
  record Waits (randomize : Bool) (end_ lo : ℕ) (t : Twap N) : Type 0 where
    pub early : (now : ℕ) → is_running t.status ≡ true → now < lo → too_soon now t ≡ true
    pub fixed : (t.randomize ≡ randomize) × (t.end_time ≡ some end_)

  abbrev WaitsAt : Bool → ℕ → ℕ → Option (Twap N) → Type 0
  WaitsAt randomize end_ lo none = Unit {0}
  WaitsAt randomize end_ lo (some t) = Waits randomize end_ lo t

  too_soon_at :
      (now lo : ℕ) (t : Twap N) → t.next_slice_at ≡ some lo → now < lo → too_soon now t ≡ true
  unfolding too_soon
  too_soon_at now lo t e h = ground arith

  min_gap-le-interval :
      (te : TwapEnv N) (id : ℕ) (t : Twap N)
      → te.intake.env.now + min_gap t.randomize ≤ next_at te id t
  unfolding next_at
  min_gap-le-interval te id t = ground arith

  module _ (te : TwapEnv N) (id : ℕ) (t : Twap N) (end_ : ℕ) (e : t.end_time ≡ some end_) where
    abbrev Resumes : TwapState N → Type 0
    Resumes us = WaitsAt t.randomize end_ (te.intake.env.now + min_gap t.randomize) (us.twaps id)

    scheduled-Resumes :
        (t' : Twap N) (ts : TwapState N)
        → t'.randomize ≡ t.randomize
        → t'.end_time ≡ t.end_time
        → Resumes (set_twap id (scheduled te id t') ts)
    unfolding set_twap scheduled update
    scheduled-Resumes t' ts a b =
        let t'' = scheduled te id t' in
        rw (beq_refl id) (record {
          early = λ now r h.
              too_soon_at now (next_at te id t') t'' refl
                (omega (arith, min_gap-le-interval te id t', ap min_gap a));
          fixed = (a, b ∙ e);
        })

    -- A slice is submitted: nothing is due until the gap is over.
    settle_slice-Resumes :
        (replies : List (OrderStatusReply N)) (ts : TwapState N)
        → Resumes (settle_slice te id t replies ts)
    settle_slice-Resumes replies ts =
        settle_slice-settled te id t ts Resumes
          (λ filled events. scheduled-Resumes (record t { filled_size = filled }) ts refl refl)
          replies

    submit_slice-Resumes :
        (wire : OrderWire N) (ts : TwapState N) → Resumes (submit_slice te id t wire ts)
    unfolding submit_slice
    submit_slice-Resumes wire ts = settle_slice-Resumes _ _

  module _ (id : ℕ) (randomize : Bool) (end_ : ℕ) where
    -- What a tick comes to, where what follows it is spaced from any time on.
    Continues : (TwapState N → List ℕ) → Type 0
    Continues rest =
        (lo : ℕ) (us : TwapState N)
        → WaitsAt randomize end_ lo (us.twaps id)
        → Spaced (min_gap randomize) lo end_ (rest us)

    carry_out-Spaced :
        (te : TwapEnv N) (t : Twap N) (lo : ℕ) (rest : TwapState N → List ℕ) (ts : TwapState N)
        (a : Action N)
        → twap_action te t ≡ a
        → ts.twaps id ≡ some t
        → Waits randomize end_ lo t
        → Continues rest
        → Spaced (min_gap randomize) lo end_ (slice_at te a (rest (carry_out te id t a ts)))
    unfolding Continues slice_at carry_out finish_twap set_twap deactivate log_row update
    carry_out-Spaced te t lo rest ts drop h e w k =
        k lo _ (rw ((drop_twap-kept te.intake.env.now id t ts t.status refl).0, e) w)
    carry_out-Spaced te t lo rest ts drop_malformed h e w k =
        k lo _ (rw (beq_refl id) (record { early = λ now r b. cc; fixed = w.fixed }))
    carry_out-Spaced te t lo rest ts finish h e w k =
        k lo _ (rw (beq_refl id) (record { early = λ now r b. cc; fixed = w.fixed }))
    carry_out-Spaced te t lo rest ts skip h e w k = k lo _ (rw e w)
    carry_out-Spaced te t lo rest ts (submit wire) h e w k =
        let (r, due, before) = submit-due te t wire end_ h w.fixed.1 in
        let now = te.intake.env.now in
        (
          ground (arith, w.early now r, due),
          before,
          k (now + min_gap randomize) _ (
              subst
                (λ b. WaitsAt b end_ (now + min_gap b) ((submit_slice te id t wire ts).twaps id))
                w.fixed.0 (submit_slice-Resumes te id t end_ w.fixed.1 wire ts)),
        )

    -- What a run of ticks does to a TWAP: its slices are submitted before its end, one at least a gap after
    -- the one before.
    submitted-Continues :
        (ticks : List (TwapEnv N × IntakeState N)) → Continues (submitted id ticks)
    unfolding Continues submitted slices_at match_twap deactivate
    submitted-Continues [] lo us w = tt
    submitted-Continues ((te, st) ∷ ticks) lo us w = elim (Option-cases (us.twaps id)) [
      | inl e ↦ rw (e, match_twap) (submitted-Continues ticks lo _ (rw e tt))
      | inr (t, e) ↦
          rw (e, match_twap)
            (carry_out-Spaced te t lo (submitted id ticks) (record us { intake = st })
              (twap_action te t) refl e (rw e at w) (submitted-Continues ticks))
    ]

  -- Over any run of ticks on a TWAP, whatever becomes of the orders in between and whichever way the clock
  -- goes: its slices are submitted before its end, and each at least 30 seconds after the one before it, or
  -- 15 where the TWAP is randomized.
  pub slices_keep_their_distance :
      (id : ℕ) (t : Twap N) (end_ : ℕ) (ticks : List (TwapEnv N × IntakeState N)) (ts : TwapState N)
      → ts.twaps id ≡ some t
      → t.end_time ≡ some end_
      → Spaced (min_gap t.randomize) 0 end_ (submitted id ticks ts)
  unfolding Continues
  slices_keep_their_distance id t end_ ticks ts e ends =
      submitted-Continues id t.randomize end_ ticks 0 ts
        (rw e (record { early = λ now r h. absurd (omega arith); fixed = (refl, ends) }))
