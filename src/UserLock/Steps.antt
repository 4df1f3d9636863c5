-- ===== src/UserLock/Steps.antt =====
-- Every step of the queues of src/utils/userLock.ts keeps the invariant.
use hy_paper.Prelude.{
  ℕ, ◌≡◌, refl, none, some, inl, inr, arith, ◌==◌, if◌then◌else◌, Bool-cases, Option-cases,
}
use hy_paper.Prelude.Maps.{nat_keys, string_keys, update}
use hy_paper.UserLock.{Phase, waiting, running, finished, Call, Locks, set_phase, release, Resolved}
use hy_paper.UserLock.Invariant.{
  Inv, AllDone, Resolved-AllDone, AllDone-moved, IsLast-moved, moved-Inv,
}

pub set_phase-calls :
    (c : ℕ) (k : Call) (b : Phase) (s : Locks) (q : ℕ)
    → (set_phase c k b s).calls q ≡ (if c == q then some (record k { phase = b }) else s.calls q)
unfolding set_phase update
set_phase-calls c k b s q = refl

pub start-Inv :
    (s : Locks) (c : ℕ) (k : Call)
    → Inv s
    → s.calls c ≡ some k
    → k.phase ≡ waiting
    → Resolved s k.prev
    → Inv (set_phase c k running s)
unfolding set_phase
start-Inv s c k inv held idle ready =
    let t = set_phase c k running s in
    let before = Resolved-AllDone s inv c k ready held refl in
    let mono =
      AllDone-moved s t inv c k running held (λ h. cc) (λ h. cc) before
        (set_phase-calls c k running s) refl in
    let lasts =
      IsLast-moved s t inv c k running held (λ h. cc) (λ h. cc) before
        (set_phase-calls c k running s) refl in
    moved-Inv s t inv c k running held (λ h. cc) (λ h. cc) before (set_phase-calls c k running s)
      refl (λ user h. mono user s.count (inv.free user h))
      (λ user p h. lasts user s.count p (inv.taken user p h))

-- Where the tail of the queue is the promise of a call that has released it, the whole queue is done.
module _ (s : Locks) (c : ℕ) (k : Call) (inv : Inv s) (held : s.calls c ≡ some k)
    (busy : k.phase ≡ running) where
  before : AllDone s k.user c
  before = inv.fifo c k held (λ h. cc)

  cleared : Locks
  unfolding set_phase update
  cleared =
      let released = set_phase c k finished s in
      record released { tails = update s.tails k.user none }

  queue_done : s.tails k.user ≡ some c → AllDone cleared k.user s.count
  unfolding cleared
  queue_done tail q j lt is same =
      let (below, own, last) = inv.taken k.user c tail in
      elim (Bool-cases (c == q)) [
        | inl here ↦ let new : j ≡ record k { phase = finished } = ground arith in cc
        | inr apart ↦
            let old : s.calls q ≡ some j = rw apart at is in
            before q j (ground (arith, last q j lt old same)) old same
      ]

  cleared-Inv : s.tails k.user ≡ some c → Inv cleared
  unfolding cleared
  cleared-Inv tail =
      let mono =
        AllDone-moved s cleared inv c k finished held (λ h. cc) (λ h. cc) before
          (set_phase-calls c k finished s) refl in
      let lasts =
        IsLast-moved s cleared inv c k finished held (λ h. cc) (λ h. cc) before
          (set_phase-calls c k finished s) refl in
      moved-Inv s cleared inv c k finished held (λ h. cc) (λ h. cc) before
        (set_phase-calls c k finished s) refl
        (λ user h. elim (Bool-cases (string_keys.beq k.user user)) [
          | inl own ↦
              let name : k.user ≡ user = (string_keys.beq_iff _ _).0 own in
              rw (← name) (queue_done tail)
          | inr other ↦ mono user s.count (inv.free user (rw other at h))
        ])
        (λ user p h. elim (Bool-cases (string_keys.beq k.user user)) [
          | inl own ↦ absurd (ground (arith, own))
          | inr other ↦ lasts user s.count p (inv.taken user p (rw other at h))
        ])

  released-Inv : Inv (set_phase c k finished s)
  unfolding set_phase
  released-Inv =
      let t = set_phase c k finished s in
      let mono =
        AllDone-moved s t inv c k finished held (λ h. cc) (λ h. cc) before
          (set_phase-calls c k finished s) refl in
      let lasts =
        IsLast-moved s t inv c k finished held (λ h. cc) (λ h. cc) before
          (set_phase-calls c k finished s) refl in
      moved-Inv s t inv c k finished held (λ h. cc) (λ h. cc) before
        (set_phase-calls c k finished s) refl (λ user h. mono user s.count (inv.free user h))
        (λ user p h. lasts user s.count p (inv.taken user p h))

  pub release-Inv : Inv (release c k s)
  unfolding release cleared
  release-Inv = elim (Option-cases (s.tails k.user)) [
    | inl e ↦ rw (e, release) released-Inv
    | inr (t, e) ↦ elim (Bool-cases (t == c)) [
      | inl own ↦ let num : t ≡ c = ground arith in rw (e, release, own) (cleared-Inv (cc))
      | inr other ↦ rw (e, release, other) released-Inv
    ]
  ]
