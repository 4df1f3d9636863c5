-- ===== src/UserLock/Fifo.antt =====
-- Who runs in src/utils/userLock.ts: the calls of a user that queue, in turn, and what they nest.
use hy_paper.Prelude.{
  ℕ, zero, suc, ◌≡◌, ◌≢◌, ◌<◌, ◌≤◌, ◌⊎◌, refl, ◌∙◌, some, inl, inr, arith, Option-cases, true,
  Bool-cases, ltb, ◌==◌,
}
use hy_paper.UserLock.{
  Phase, waiting, running, finished, Call, Locks, Resolved, at_once, linked, Reach,
}
use hy_paper.UserLock.Invariant.{Inv}
use hy_paper.UserLock.Arrivals.{Reach-Inv}
use hy_paper.UserLock.Nesting.{Within, Reach-Nest}
use hy_paper.Prelude.Maps.{nat_keys, string_keys, pair_keys, contains}
use mathlib.Core.Path.{subst}

Phase-cases : (p : Phase) → (p ≡ waiting) ⊎ ((p ≡ running) ⊎ (p ≡ finished))
Phase-cases waiting = inl refl
Phase-cases running = inr (inl refl)
Phase-cases finished = inr (inr refl)

later_waits :
    (s : Locks) (c q : ℕ) (k j : Call)
    → Inv s
    → s.calls c ≡ some k
    → k.phase ≡ running
    → s.calls q ≡ some j
    → k.user ≡ j.user
    → c < q
    → j.phase ≡ waiting
later_waits s c q k j inv held busy there same lt = elim (Phase-cases j.phase) [
  | inl w ↦ w
  | inr r ↦
      let over : k.phase ≡ finished =
        inv.fifo q j there (λ w. elim r [ inl x ↦ cc | inr x ↦ cc ]) c k lt held same in
      cc
]

order-cases : (a b : ℕ) → (a < b) ⊎ ((a ≡ b) ⊎ (b < a))
order-cases a b = elim (Bool-cases (a == b)) [
  | inl h ↦ inr (inl (ground arith))
  | inr h ↦ elim (Bool-cases (ltb a b)) [
    | inl k ↦ inl (ground arith)
    | inr k ↦ inr (inr (ground arith))
  ]
]

-- While the function of a call runs, however calls of this and of other users interleave and nest: of
-- the calls of its user that queue, every earlier one has finished and every later one waits, so that their
-- functions never overlap and start in the order of arrival. A function of that user that runs
-- re-entrantly, at once and past those that wait, runs in a context that lies within the call itself, or
-- within an earlier call of that user that has finished and did not wait for it.
pub one_runs_in_turn :
    (s : Locks) (c : ℕ) (k : Call)
    → Reach s
    → s.calls c ≡ some k
    → k.phase ≡ running
    → ((q : ℕ) (j : Call)
        → s.calls q ≡ some j
        → j.user ≡ k.user
        → (q < c → j.phase ≡ finished) × (c < q → j.phase ≡ waiting))
      × ((p : ℕ)
          → contains (p, k.user) s.inner ≡ true
          → Within s c p
            ⊎ ((e : ℕ) × (m : Call) × (s.calls e ≡ some m)
                × (m.user ≡ k.user)
                × (e < c)
                × (m.phase ≡ finished)
                × Within s e p))
one_runs_in_turn s c k r held busy = (
  λ q j there same. (
    λ lt. (Reach-Inv s r).fifo c k held (λ w. cc) q j lt there same,
    later_waits s c q k j (Reach-Inv s r) held busy there (cc),
  ),
  λ p h.
      let (e, m, there, same, turn, within) = (Reach-Nest s r).nested p k.user h in
      elim (order-cases e c) [
        | inl lt ↦ inr (
          e,
          m,
          there,
          same,
          lt,
          (Reach-Inv s r).fifo c k held (λ w. cc) e m lt there same,
          within,
        )
        | inr (inl num) ↦ inl (subst (λ x. Within s x p) num within)
        | inr (inr gt) ↦
            absurd (turn (later_waits s c e k m (Reach-Inv s r) held busy there (cc) gt))
      ],
)

abbrev pub CanMove : Locks → Call → Type 0
CanMove s m = (m.phase ≡ running) ⊎ ((m.phase ≡ waiting) × Resolved s m.prev)

-- Before a call that has come to its turn, every promise is resolved.
turn-Resolved :
    (bound : ℕ) (s : Locks) (c : ℕ) (k : Call)
    → c < bound
    → Inv s
    → s.calls c ≡ some k
    → k.phase ≢ waiting
    → Resolved s k.prev
turn-Resolved zero s c k lt inv held turn = absurd (omega arith)
turn-Resolved (suc n) s c k lt inv held turn = elim (Option-cases k.prev) [
  | inl e ↦ rw e at_once
  | inr (p, e) ↦
      let (below, (o, there, owner), last) = inv.next c p k held e in
      let over : o.phase ≡ finished = inv.fifo c k held turn p o below there owner in
      rw e (linked there over (turn-Resolved n s p o (omega arith) inv there (λ w. cc)))
]

front :
    (bound : ℕ) (s : Locks) (c : ℕ) (k : Call)
    → c < bound
    → Inv s
    → s.calls c ≡ some k
    → k.phase ≡ waiting
    → (e : ℕ) × (m : Call) × (s.calls e ≡ some m) × (m.user ≡ k.user) × (e ≤ c) × CanMove s m
front zero s c k lt inv held idle = absurd (omega arith)
front (suc n) s c k lt inv held idle = elim (Option-cases k.prev) [
  | inl e ↦ (c, k, held, refl, omega arith, inr (idle, rw e at_once))
  | inr (p, e) ↦
      let (below, (o, there, owner), last) = inv.next c p k held e in
      elim (Phase-cases o.phase) [
        | inl w ↦
            let (h, m, at_h, same, le, moves) = front n s p o (omega arith) inv there w in
            (h, m, at_h, same ∙ owner, omega arith, moves)
        | inr (inl busy) ↦ (p, o, there, owner, omega arith, inl busy)
        | inr (inr over) ↦ (
          c,
          k,
          held,
          refl,
          omega arith,
          inr (
            idle,
            rw e
                (linked there over (turn-Resolved (suc n) s p o (omega arith) inv there (λ w. cc))),
          ),
        )
      ]
]

-- Where a call waits, the queue of its user moves: some call of that user, this one or an earlier one,
-- runs its function, or waits no longer for a promise and can start.
pub queue_moves :
    (s : Locks) (c : ℕ) (k : Call)
    → Reach s
    → s.calls c ≡ some k
    → k.phase ≡ waiting
    → (e : ℕ) × (m : Call) × (s.calls e ≡ some m) × (m.user ≡ k.user) × (e ≤ c) × CanMove s m
queue_moves s c k r held idle = front (suc c) s c k (omega arith) (Reach-Inv s r) held idle
