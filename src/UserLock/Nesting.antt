-- ===== src/UserLock/Nesting.antt =====
-- Whose context the re-entrant functions of src/utils/userLock.ts run in.
use Prim.Native.String.{String}
use hy_paper.Prelude.{
  ℕ, Option, ◌≡◌, ◌≢◌, refl, sym, ap, ◌∙◌, true, none, some, List, [], ◌∷◌, ◌++◌, inl, inr, arith,
  ◌==◌, if◌then◌else◌, Bool-cases, Option-cases,
}
use hy_paper.Prelude.Maps.{nat_keys, string_keys, pair_keys, contains}
use hy_paper.UserLock.{
  Phase, waiting, running, finished, Call, Locks, no_locks, held_by, enqueue, set_phase, release,
  Runs, inside, Step, call, reenter, leave, start, finish, Reach, begun, later,
}
use hy_paper.UserLock.Invariant.{Inv}
use hy_paper.UserLock.Steps.{set_phase-calls}
use hy_paper.UserLock.Arrivals.{joined, joins, origin, newer, Reach-Inv}

-- The context of the second call was made in that of the first.
pub data Within (s : Locks) (e : ℕ) : ℕ → Type 0 where
  self : Within s e e
  deeper :
      {c p : ℕ} {k : Call} → s.calls c ≡ some k → k.parent ≡ some p → Within s e p → Within s e c

-- The context of a call lies within a call of a user that has come to its turn.
abbrev pub HasTurn : Locks → String → ℕ → Type 0
HasTurn s user c =
    (e : ℕ) × (m : Call) × (s.calls e ≡ some m)
    × (m.user ≡ user)
    × (m.phase ≢ waiting)
    × Within s e c

pub record Nest (s : Locks) : Type 0 where
  pub holds :
      (c : ℕ) (k : Call) (user : String)
      → s.calls c ≡ some k
      → contains user k.holding ≡ true
      → (p : ℕ) × (k.parent ≡ some p) × HasTurn s user p
  pub nested : (c : ℕ) (user : String) → contains (c, user) s.inner ≡ true → HasTurn s user c

-- What a step keeps of the calls that there were.
abbrev Moves : Locks → Locks → Type 0
Moves s t =
    (c : ℕ) (k : Call)
    → s.calls c ≡ some k
    → (m : Call) × (t.calls c ≡ some m)
      × (m.user ≡ k.user)
      × (m.parent ≡ k.parent)
      × (k.phase ≢ waiting → m.phase ≢ waiting)

Within-moved : {s t : Locks} {e c : ℕ} → Moves s t → Within s e c → Within t e c
Within-moved moves self = self
Within-moved moves (deeper {c = c} {k = k} at_c up w) =
    let (m, there, owner, same, turns) = moves c k at_c in
    deeper there (same ∙ up) (Within-moved moves w)

HasTurn-moved :
    {s t : Locks} (user : String) (c : ℕ) → Moves s t → HasTurn s user c → HasTurn t user c
HasTurn-moved user c moves (e, k, at_e, owner, turn, w) =
    let (m, there, same, up, turns) = moves e k at_e in
    (e, m, there, same ∙ owner, turns turn, Within-moved moves w)

-- A user that running code holds is held by a call around it.
held_by-HasTurn :
    (s : Locks) (c : ℕ) (user : String)
    → Nest s
    → Runs s (some c)
    → contains user (held_by s (some c)) ≡ true
    → HasTurn s user c
unfolding held_by contains
held_by-HasTurn s c user nest (inside {k = k} at_c turn) h =
    elim (Bool-cases (string_keys.beq user k.user)) [
      | inl own ↦ (c, k, at_c, sym ((string_keys.beq_iff user k.user).0 own), turn, self)
      | inr other ↦
          let deep : contains user k.holding ≡ true = ground (arith, at_c, other, h) in
          let (p, up, (e, m, there, owner, began, w)) = nest.holds c k user at_c deep in
          (e, m, there, owner, began, deeper at_c up w)
    ]

-- One call of a state moves on to its function or past it.
module _ (s t : Locks) (nest : Nest s) (c : ℕ) (k : Call) (b : Phase) (held : s.calls c ≡ some k)
    (turn : b ≢ waiting)
    (calls : (q : ℕ) → t.calls q ≡ (if c == q then some (record k { phase = b }) else s.calls q))
    (same_inner : t.inner ≡ s.inner) where
  phase-Moves : Moves s t
  phase-Moves q i at_q = elim (Bool-cases (c == q)) [
    | inl here ↦
        let num : c ≡ q = ground arith in
        let one : k ≡ i = cc in
        (
          record k { phase = b },
          rw here at (calls q),
          ap (λ (x : Call). x.user) one,
          ap (λ (x : Call). x.parent) one,
          λ w. turn,
        )
    | inr apart ↦ (i, rw apart at (calls q) ∙ at_q, refl, refl, λ w. w)
  ]

  phase-back :
      (q : ℕ) (j : Call)
      → t.calls q ≡ some j
      → (i : Call) × (s.calls q ≡ some i) × (j.holding ≡ i.holding) × (j.parent ≡ i.parent)
  phase-back q j at_q = elim (Bool-cases (c == q)) [
    | inl here ↦
        let num : c ≡ q = ground arith in
        let new : j ≡ record k { phase = b } = ground (arith, calls q) in
        (k, rw (← num) held, ap (λ (x : Call). x.holding) new, ap (λ (x : Call). x.parent) new)
    | inr apart ↦ (j, sym (rw apart at (calls q)) ∙ at_q, refl, refl)
  ]

  phase-Nest : Nest t
  phase-Nest = record {
    holds = λ q j user at_q h.
        let (i, old, users, up) = phase-back q j at_q in
        let (p, from, turns) = nest.holds q i user old (ap (contains user) (sym users) ∙ h) in
        (p, up ∙ from, HasTurn-moved user p phase-Moves turns);
    nested = λ q user h.
        HasTurn-moved user q phase-Moves
          (nest.nested q user (ap (contains (q, user)) (sym same_inner) ∙ h));
  }

release-calls :
    (c : ℕ) (k : Call) (s : Locks) (q : ℕ)
    → (release c k s).calls q ≡ (if c == q then some (record k { phase = finished }) else s.calls q)
unfolding release
release-calls c k s q = elim (Option-cases (s.tails k.user)) [
  | inl e ↦ rw (e, release) (set_phase-calls c k finished s q)
  | inr (t, e) ↦ elim (Bool-cases (t == c)) [
    | inl own ↦ rw (e, release, own) (set_phase-calls c k finished s q)
    | inr other ↦ rw (e, release, other) (set_phase-calls c k finished s q)
  ]
]

release-inner : (c : ℕ) (k : Call) (s : Locks) → (release c k s).inner ≡ s.inner
unfolding release set_phase
release-inner c k s = elim (Option-cases (s.tails k.user)) [
  | inl e ↦ rw (e, release) refl
  | inr (t, e) ↦ elim (Bool-cases (t == c)) [
    | inl own ↦ rw (e, release, own) refl
    | inr other ↦ rw (e, release, other) refl
  ]
]

-- A call that queues, from code that runs.
module _ (s : Locks) (caller : Option ℕ) (user : String) (inv : Inv s) (nest : Nest s)
    (runs : Runs s caller) where
  joins-Moves : Moves s (joins s caller user inv)
  joins-Moves q i at_q = (i, newer s caller user inv q i at_q, refl, refl, λ w. w)

  caller-HasTurn :
      (x : Option ℕ) (u : String)
      → Runs s x
      → contains u (held_by s x) ≡ true
      → (p : ℕ) × (x ≡ some p) × HasTurn s u p
  unfolding held_by contains
  caller-HasTurn none u code h = cc
  caller-HasTurn (some p) u code h = (p, refl, held_by-HasTurn s p u nest code h)

  joins-Nest : Nest (joins s caller user inv)
  unfolding joins joined enqueue
  joins-Nest = record {
    holds = λ q j u at_q h. elim (origin s caller user inv q j at_q) [
      | inl (num, new) ↦
          let (p, up, turns) =
            caller-HasTurn caller u runs (ap (λ (x : Call). contains u x.holding) (sym new) ∙ h) in
          (p, ap (λ (x : Call). x.parent) new ∙ up, HasTurn-moved u p joins-Moves turns)
      | inr old ↦
          let (p, up, turns) = nest.holds q j u old h in
          (p, up, HasTurn-moved u p joins-Moves turns)
    ];
    nested = λ q u h. HasTurn-moved u q joins-Moves (nest.nested q u h);
  }

contains-middle :
    (x y : ℕ × String) (xs ys : List (ℕ × String))
    → contains x (xs ++ ys) ≡ true
    → contains x (xs ++ y ∷ ys) ≡ true
unfolding contains
contains-middle x y [] ys h = ground arith
contains-middle x y (z ∷ xs) ys h = ground (arith, contains-middle x y xs ys)

inner-Moves : (s : Locks) (inner : List (ℕ × String)) → Moves s (record s { inner = inner })
inner-Moves s inner q i at_q = (i, at_q, refl, refl, λ w. w)

inner-Nest :
    (s : Locks) (inner : List (ℕ × String))
    → Nest s
    → ((c : ℕ) (user : String) → contains (c, user) inner ≡ true → HasTurn s user c)
    → Nest (record s { inner = inner })
inner-Nest s inner nest turns = record {
  holds = λ q j u at_q h.
      let (p, up, turn) = nest.holds q j u at_q h in
      (p, up, HasTurn-moved u p (inner-Moves s inner) turn);
  nested = λ q u h. HasTurn-moved u q (inner-Moves s inner) (turns q u h);
}

begun-Nest : Nest no_locks
unfolding contains
begun-Nest = record { holds = λ c k user at_c h. cc; nested = λ c user h. cc }

Step-Nest : (s t : Locks) → Inv s → Nest s → Step s t → Nest t
unfolding joins set_phase contains
Step-Nest s t inv nest (call caller user runs out) = joins-Nest s caller user inv nest runs
Step-Nest s t inv nest (reenter c user runs is) = inner-Nest s ((c, user) ∷ s.inner) nest (λ q u h.
    elim (Bool-cases (pair_keys.beq (q, u) (c, user))) [
      | inl here ↦
          let pair : (q, u) ≡ (c, user) = (pair_keys.beq_iff (q, u) (c, user)).0 here in
          rw (ap (λ (x : ℕ × String). x.0) pair, ap (λ (x : ℕ × String). x.1) pair)
            (held_by-HasTurn s c user nest runs is)
      | inr apart ↦ nest.nested q u (ground (arith, apart))
    ])
Step-Nest s t inv nest (leave x xs ys e) =
    inner-Nest s (xs ++ ys) nest
      (λ q u h. nest.nested q u (ap (contains (q, u)) e ∙ contains-middle (q, u) x xs ys h))
Step-Nest s t inv nest (start c k held idle ready) =
    phase-Nest s _ nest c k running held (λ h. cc) (set_phase-calls c k running s) refl
Step-Nest s t inv nest (finish c k held busy) =
    phase-Nest s _ nest c k finished held (λ h. cc) (release-calls c k s) (release-inner c k s)

pub Reach-Nest : (s : Locks) → Reach s → Nest s
Reach-Nest s begun = begun-Nest
Reach-Nest t (later {s = s} r step) = Step-Nest s t (Reach-Inv s r) (Reach-Nest s r) step
