-- ===== src/UserLock/Arrivals.antt =====
-- A call that joins a queue of src/utils/userLock.ts keeps the invariant, so all that is reachable has it.
use Prim.Native.String.{String}
use hy_paper.Prelude.{
  ℕ, suc, Option, List, ◌≡◌, ◌<◌, ◌≤◌, ◌⊎◌, refl, sym, ap, ◌∙◌, true, false, none, some, inl, inr,
  arith, ◌==◌, if◌then◌else◌, Bool-cases,
}
use hy_paper.Prelude.Maps.{nat_keys, string_keys, update}
use hy_paper.UserLock.{
  waiting, Call, Locks, no_locks, held_by, enqueue, Step, call, reenter, leave, start, finish,
  Reach, begun, later,
}
use hy_paper.UserLock.Invariant.{Inv, AllDone, IsLast}
use hy_paper.UserLock.Steps.{start-Inv, release-Inv}

begun-Inv : Inv no_locks
begun-Inv = record {
  counted = λ c k h. cc;
  first = λ c k h. cc;
  next = λ c p k h. cc;
  free = λ user h q j lt e. cc;
  taken = λ user t h. cc;
  fifo = λ c k h. cc;
}

module _ (s : Locks) (caller : Option ℕ) (user : String) (inv : Inv s) where
  unfoldable pub joined : Call
  joined = record {
    user = user;
    prev = s.tails user;
    holding = held_by s caller;
    parent = caller;
    phase = waiting;
  }

  unfoldable pub joins : Locks
  unfolding enqueue joined
  joins = enqueue caller user s

  joins-calls : (q : ℕ) → joins.calls q ≡ (if s.count == q then some joined else s.calls q)
  unfolding joins update
  joins-calls q = refl

  pub origin :
      (q : ℕ) (j : Call)
      → joins.calls q ≡ some j
      → ((q ≡ s.count) × (j ≡ joined)) ⊎ (s.calls q ≡ some j)
  origin q j e = elim (Bool-cases (s.count == q)) [
    | inl here ↦ inl (ground arith, ground (arith, joins-calls q))
    | inr apart ↦ inr (sym (rw apart at (joins-calls q)) ∙ e)
  ]

  older : (q : ℕ) (j : Call) → q < s.count → joins.calls q ≡ some j → s.calls q ≡ some j
  older q j lt e = elim (origin q j e) [ inl (num, new) ↦ absurd (omega arith) | inr old ↦ old ]

  pub newer : (q : ℕ) (j : Call) → s.calls q ≡ some j → joins.calls q ≡ some j
  newer q j e =
      let lt : q < s.count = inv.counted q j e in
      let apart : (s.count == q) ≡ false = ground arith in (rw apart at (joins-calls q)) ∙ e

  AllDone-joined : (u : String) (n : ℕ) → n ≤ s.count → AllDone s u n → AllDone joins u n
  AllDone-joined u n few done q j lt e same = done q j lt (older q j (omega arith) e) same

  IsLast-joined : (u : String) (n p : ℕ) → n ≤ s.count → IsLast s u n p → IsLast joins u n p
  IsLast-joined u n p few (below, (o, there, owner), last) = (
    below,
    (o, newer p o there, owner),
    λ q i lt is same. last q i lt (older q i (omega arith) is) same,
  )

  tails_joined :
      (u : String) → joins.tails u ≡ (if string_keys.beq user u then some s.count else s.tails u)
  unfolding joins update
  tails_joined u = refl

  count_joined : joins.count ≡ suc s.count
  unfolding joins
  count_joined = refl

  joined-free : (u : String) → joins.tails u ≡ none → AllDone joins u joins.count
  unfolding joined
  joined-free u h q j lt e same = elim (Bool-cases (string_keys.beq user u)) [
    | inl own ↦ absurd (ground (arith, tails_joined u))
    | inr other ↦ elim (origin q j e) [
      | inl (num, new) ↦
          let name : user ≡ u = sym (ap (λ (x : Call). x.user) new) ∙ same in
          absurd (ground (arith, (string_keys.beq_iff user u).1 name))
      | inr old ↦
          inv.free u (sym (rw other at (tails_joined u)) ∙ h) q j (inv.counted q j old) old same
    ]
  ]

  joined-taken : (u : String) (p : ℕ) → joins.tails u ≡ some p → IsLast joins u joins.count p
  unfolding joined
  joined-taken u p h = elim (Bool-cases (string_keys.beq user u)) [
    | inl own ↦
        let name : user ≡ u = (string_keys.beq_iff user u).0 own in
        let num : p ≡ s.count = ground (arith, tails_joined u) in
        let here : (s.count == p) ≡ true = ground arith in
        (
          omega (arith, count_joined),
          (joined, rw here at (joins-calls p), name),
          λ q i lt is same. omega (arith, count_joined),
        )
    | inr other ↦
        let (below, (o, there, owner), last) =
          inv.taken u p (sym (rw other at (tails_joined u)) ∙ h) in
        (
          omega (arith, count_joined),
          (o, newer p o there, owner),
          λ q i lt is same. elim (origin q i is) [
            | inl (num, new) ↦
                let name : user ≡ u = sym (ap (λ (x : Call). x.user) new) ∙ same in
                absurd (ground (arith, (string_keys.beq_iff user u).1 name))
            | inr old ↦ last q i (inv.counted q i old) old same
          ],
        )
  ]

  enqueue-Inv : Inv joins
  unfolding joined
  enqueue-Inv = record {
    counted = λ q j e. elim (origin q j e) [
      | inl (num, new) ↦ omega (arith, count_joined)
      | inr old ↦ omega (arith, count_joined, inv.counted q j old)
    ];
    first = λ q j e h. elim (origin q j e) [
      | inl (num, new) ↦
          rw (num, new) (AllDone-joined user s.count (omega arith) (inv.free user (cc)))
      | inr old ↦ AllDone-joined j.user q (omega (arith, inv.counted q j old)) (inv.first q j old h)
    ];
    next = λ q p j e h. elim (origin q j e) [
      | inl (num, new) ↦
          rw (num, new) (IsLast-joined user s.count p (omega arith) (inv.taken user p (cc)))
      | inr old ↦
          IsLast-joined j.user q p (omega (arith, inv.counted q j old)) (inv.next q p j old h)
    ];
    free = joined-free;
    taken = joined-taken;
    fifo = λ q j e h. elim (origin q j e) [
      | inl (num, new) ↦ absurd (h (ap (λ (x : Call). x.phase) new))
      | inr old ↦ AllDone-joined j.user q (omega (arith, inv.counted q j old)) (inv.fifo q j old h)
    ];
  }

-- The functions that run re-entrantly do not matter to the queues.
inner-Inv : (s : Locks) (inner : List (ℕ × String)) → Inv s → Inv (record s { inner = inner })
inner-Inv s inner inv = record {
  counted = inv.counted;
  first = inv.first;
  next = inv.next;
  free = inv.free;
  taken = inv.taken;
  fifo = inv.fifo;
}

Step-Inv : (s t : Locks) → Inv s → Step s t → Inv t
unfolding joins
Step-Inv s t inv (call caller user runs out) = enqueue-Inv s caller user inv
Step-Inv s t inv (reenter c user runs is) = inner-Inv s _ inv
Step-Inv s t inv (leave x xs ys e) = inner-Inv s _ inv
Step-Inv s t inv (start c k held idle ready) = start-Inv s c k inv held idle ready
Step-Inv s t inv (finish c k held busy) = release-Inv s c k inv held busy

pub Reach-Inv : (s : Locks) → Reach s → Inv s
Reach-Inv s begun = begun-Inv
Reach-Inv t (later {s = s} r step) = Step-Inv s t (Reach-Inv s r) step
