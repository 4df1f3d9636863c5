-- ===== src/UserLock.antt =====
-- src/utils/userLock.ts: the queue of promises of each user, with calls as they interleave.
pub mod Invariant
pub mod Steps
pub mod Arrivals
pub mod Nesting
pub mod Fifo
mod Examples
use Prim.Native.String.{String}
use hy_paper.Prelude.{
  ℕ, suc, ◌≡◌, Bool, true, false, Option, none, some, List, [], ◌∷◌, ◌++◌, ◌≢◌, ◌==◌, if◌then◌else◌,
}
use hy_paper.Prelude.Maps.{nat_keys, string_keys, update, contains}

-- A call waits for the promise before its own, runs its function, and has then released its own promise.
pub data Phase : Type 0 where
  waiting running finished : Phase

-- A call of `withUserLock` that queued. Its promise `tail` is named by the number of the call; `prev` is
-- the one before, and `none` is `Promise.resolve()`. `holding` are the users that the context of its
-- caller holds, and `parent`, which only the model keeps, is the call whose function, or what that started,
-- made it.
pub record Call : Type 0 where
  pub user : String
  pub prev : Option ℕ
  pub holding : List String
  pub parent : Option ℕ
  pub phase : Phase

-- `inner`, which only the model keeps, are the functions that run re-entrantly, with the call whose context
-- they run in.
pub record Locks : Type 0 where
  pub tails : String → Option ℕ
  pub calls : ℕ → Option Call
  pub count : ℕ
  pub inner : List (ℕ × String)

abbrev pub no_locks : Locks
no_locks = record { tails = λ user. none; calls = λ c. none; count = 0; inner = [] }

-- `held.getStore()` of code that runs outside any call, or in the context of one.
pub held_by : Locks → Option ℕ → List String
held_by s none = []
held_by s (some c) = elim (s.calls c) [ none ↦ [] | some k ↦ k.user ∷ k.holding ]

-- Up to `await prev`, which runs in one go.
pub enqueue : Option ℕ → String → Locks → Locks
unfolding held_by update
enqueue caller user s = record s {
  tails = update s.tails user (some s.count);
  calls = update s.calls s.count (
      some (record {
        user = user;
        prev = s.tails user;
        holding = held_by s caller;
        parent = caller;
        phase = waiting;
      }));
  count = suc s.count;
}

pub set_phase : ℕ → Call → Phase → Locks → Locks
unfolding update
set_phase c k phase s = record s { calls = update s.calls c (some (record k { phase = phase })) }

-- `finally`, whether the function returned or threw.
pub release : ℕ → Call → Locks → Locks
unfolding set_phase update
release c k s =
    let released = set_phase c k finished s in
    elim (s.tails k.user) [
      | none ↦ released
      | some t ↦ if t == c then record released { tails = update s.tails k.user none } else released
    ]

-- A promise of the queue is resolved once the one before is, and the call has released its own.
pub data Resolved (s : Locks) : Option ℕ → Type 0 where
  at_once : Resolved s none
  linked :
      {p : ℕ} {j : Call}
      → s.calls p ≡ some j
      → j.phase ≡ finished
      → Resolved s j.prev
      → Resolved s (some p)

-- Code runs outside any call, or in the context of a call that has come to its turn: in its function, or
-- in what that started and did not wait for.
pub data Runs (s : Locks) : Option ℕ → Type 0 where
  outside : Runs s none
  inside : {c : ℕ} {k : Call} → s.calls c ≡ some k → k.phase ≢ waiting → Runs s (some c)

pub data Step (s : Locks) : Locks → Type 0 where
  call :
      (caller : Option ℕ) (user : String)
      → Runs s caller
      → contains user (held_by s caller) ≡ false
      → Step s (enqueue caller user s)
  -- a user that the context holds: the function runs at once
  reenter :
      (c : ℕ) (user : String)
      → Runs s (some c)
      → contains user (held_by s (some c)) ≡ true
      → Step s (record s { inner = (c, user) ∷ s.inner })
  -- such a function returns or throws
  leave :
      (x : ℕ × String) (xs ys : List (ℕ × String))
      → s.inner ≡ xs ++ x ∷ ys
      → Step s (record s { inner = xs ++ ys })
  start :
      (c : ℕ) (k : Call)
      → s.calls c ≡ some k
      → k.phase ≡ waiting
      → Resolved s k.prev
      → Step s (set_phase c k running s)
  finish : (c : ℕ) (k : Call) → s.calls c ≡ some k → k.phase ≡ running → Step s (release c k s)

pub data Reach : Locks → Type 0 where
  begun : Reach no_locks
  later : {s t : Locks} → Reach s → Step s t → Reach t
