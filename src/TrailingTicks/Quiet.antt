-- ===== src/TrailingTicks/Quiet.antt =====
-- The ticks at which a trailing stop does not fire, in src/worker/order-matcher.ts, as runs of the
-- state machine of src/engine/trailing-math.ts.
use hy_paper.Prelude.{ℕ, ◌≡◌, refl, sym, ap, ◌∙◌, Bool, true, false, Option, some, List, [], ◌∷◌}
use mathlib.Core.Path.{subst}
use hy_paper.Prelude.Maps.{nat_keys, update, beq_refl}
use hy_paper.Decimal.{Decimal}
use hy_paper.Trailing.{TrailingParams, TrailingState, TrailingEval, evaluate_trailing, evaluate_all}
use hy_paper.Trailing.Hash.{show_bool, read_trailing, read_bool}
use hy_paper.MarkFeed.{get_fresh_mark}
use hy_paper.Orders.{Order, is_open}
use hy_paper.Store.{Store, set_order}
use hy_paper.Orphans.{persist_trailing_evaluation}
use hy_paper.Env.{Env}
use hy_paper.TrailingTicks.{evaluate_stop, match_trailing_stop}

module _ {N : Type 0} ⦃d : Decimal N⦄ where
  abbrev pub params_of : Order N → TrailingParams N
  params_of o = (read_trailing (show_bool o.is_buy) o.trailing).0

  abbrev pub state_of : Order N → TrailingState N
  state_of o = (read_trailing (show_bool o.is_buy) o.trailing).1

  -- A tick at which a stop is evaluated at a mark and does not fire.
  pub record QuietTick (oid : ℕ) (env : Env N) (s : Store N) (mark : N) (t : Store N) : Type 0 where
    pub order : Order N
    pub ev : TrailingEval N
    pub stored : s.orders oid ≡ some order
    pub live : is_open order.status ≡ true
    pub fresh : get_fresh_mark (env.ctx order.coin) env.now ≡ some mark
    pub evaluated : evaluate_trailing (params_of order) (state_of order) mark ≡ some ev
    pub quiet : ev.fire ≡ false
    pub ticked : match_trailing_stop env oid s ≡ some t

  -- Quiet ticks of a stop, between other steps that leave its hash alone, with the marks that it saw.
  pub data QuietRun (oid : ℕ) : Store N → List N → Store N → Type 0 where
    done : {s : Store N} → QuietRun oid s [] s
    other :
        {s t u : Store N} {marks : List N}
        → t.orders oid ≡ s.orders oid
        → QuietRun oid t marks u
        → QuietRun oid s marks u
    tick :
        {s t u : Store N} {mark : N} {marks : List N} (env : Env N)
        → QuietTick oid env s mark t
        → QuietRun oid t marks u
        → QuietRun oid s (mark ∷ marks) u

  persisted-params :
      (ev : TrailingEval N) (o : Order N)
      → params_of (persist_trailing_evaluation ev o) ≡ params_of o
  unfolding persist_trailing_evaluation read_trailing
  persisted-params ev o = refl

  persisted-state :
      (ev : TrailingEval N) (o : Order N) → state_of (persist_trailing_evaluation ev o) ≡ ev.state
  unfolding persist_trailing_evaluation read_trailing
  persisted-state ev o =
      ap (λ (b : Bool). record { activated = b; best = ev.state.best })
        (read_bool ev.state.activated)

  evaluate_stop-quiet :
      (oid : ℕ) (env : Env N) (o : Order N) (mark : N) (ev : TrailingEval N) (s : Store N)
      → evaluate_trailing (params_of o) (state_of o) mark ≡ some ev
      → ev.fire ≡ false
      → evaluate_stop env oid o mark s ≡ some (set_order oid (persist_trailing_evaluation ev) s)
  unfolding evaluate_stop
  evaluate_stop-quiet oid env o mark ev s e quiet = simp (e, evaluate_stop, quiet) refl

  match_trailing_stop-live :
      (oid : ℕ) (env : Env N) (o : Order N) (mark : N) (s : Store N) (after : Option (Store N))
      → s.orders oid ≡ some o
      → is_open o.status ≡ true
      → get_fresh_mark (env.ctx o.coin) env.now ≡ some mark
      → evaluate_stop env oid o mark s ≡ after
      → match_trailing_stop env oid s ≡ after
  unfolding match_trailing_stop
  match_trailing_stop-live oid env o mark s after e live m k =
      rw (e, match_trailing_stop, live, m) k

  set_order_self :
      (oid : ℕ) (o : Order N) (change : Order N → Order N) (s : Store N)
      → s.orders oid ≡ some o
      → (set_order oid change s).orders oid ≡ some (change o)
  unfolding set_order update
  set_order_self oid o change s e = rw (beq_refl oid, e) refl

  quiet_order :
      (oid : ℕ) (env : Env N) (s t : Store N) (mark : N) (q : QuietTick oid env s mark t)
      → t.orders oid ≡ some (persist_trailing_evaluation q.ev q.order)
  quiet_order oid env s t mark q =
      let kept = set_order oid (persist_trailing_evaluation q.ev) s in
      let ends =
        match_trailing_stop-live oid env q.order mark s (some kept) q.stored q.live q.fresh
          (evaluate_stop-quiet oid env q.order mark q.ev s q.evaluated q.quiet) in
      let ticked = q.ticked in
      let same : t ≡ kept = cc in
      ap (λ (k : Store N). k.orders oid) same
      ∙ set_order_self oid q.order (persist_trailing_evaluation q.ev) s q.stored

  evaluate_all-cons :
      (p : TrailingParams N) (st : TrailingState N) (mark : N) (marks : List N)
      (ev : TrailingEval N)
      → evaluate_trailing p st mark ≡ some ev
      → evaluate_all p st (mark ∷ marks) ≡ evaluate_all p ev.state marks
  unfolding evaluate_all
  evaluate_all-cons p st mark marks ev e = rw e refl

  -- Over quiet ticks, with whatever else happens in between that leaves the hash of the stop alone, the
  -- hash holds the state that the state machine reaches on the marks that the stop saw, from the state that
  -- the hash held at first, and the parameters stay.
  pub stop_follows_machine :
      (oid : ℕ) (s u : Store N) (marks : List N) (o : Order N)
      → s.orders oid ≡ some o
      → QuietRun oid s marks u
      → (after : Order N) × (u.orders oid ≡ some after)
        × (params_of after ≡ params_of o)
        × (evaluate_all (params_of o) (state_of o) marks ≡ some (state_of after))
  unfolding evaluate_all
  stop_follows_machine oid s u [] o e done = (o, e, refl, refl)
  stop_follows_machine oid s u marks o e (other {t = t} same run) =
      stop_follows_machine oid t u marks o (same ∙ e) run
  stop_follows_machine oid s u (mark ∷ marks) o e (tick {t = t} env q run) =
      let next = persist_trailing_evaluation q.ev q.order in
      let (after, held, params, states) =
        stop_follows_machine oid t u marks next (quiet_order oid env s t mark q) run in
      let stored = q.stored in
      let first : q.order ≡ o = cc in
      let kept : params_of next ≡ params_of o =
        persisted-params q.ev q.order ∙ ap params_of first in
      let evaluated =
        subst (λ (k : Order N). evaluate_trailing (params_of k) (state_of k) mark ≡ some q.ev) first
          q.evaluated in
      (
        after,
        held,
        params ∙ kept,
        evaluate_all-cons (params_of o) (state_of o) mark marks q.ev evaluated
            ∙ ap (λ p. evaluate_all p q.ev.state marks) (sym kept)
            ∙ ap (λ st. evaluate_all (params_of next) st marks) (sym (persisted-state q.ev q.order))
            ∙ states,
      )
