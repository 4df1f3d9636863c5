-- ===== src/UserLock/Examples.antt =====
-- Two calls of Ann on the lock of src/utils/userLock.ts, of which the first runs.
use hy_paper.Prelude.{ℕ, ◌≡◌, ◌<◌, ◌≤◌, ◌⊎◌, refl, true, none, some, [], ◌∷◌}
use hy_paper.Prelude.Maps.{nat_keys, string_keys, pair_keys, update, contains}
use hy_paper.UserLock.{
  Call, Locks, waiting, running, finished, no_locks, held_by, enqueue, set_phase, call, start,
  outside, inside, reenter, at_once, Reach, begun, later,
}
use hy_paper.UserLock.Nesting.{Within}
use hy_paper.UserLock.Fifo.{one_runs_in_turn, queue_moves, CanMove}

abbrev first_call : Call
first_call = record { user = "ann"; prev = none; holding = []; parent = none; phase = waiting }

abbrev second_call : Call
second_call = record { user = "ann"; prev = some 0; holding = []; parent = none; phase = waiting }

abbrev runs : Call
runs = record first_call { phase = running }

-- In the function of the first, Ann's lock is taken again.
abbrev two_calls : Locks
two_calls =
    let s = set_phase 0 first_call running (enqueue none "ann" (enqueue none "ann" no_locks)) in
    record s { inner = (0, "ann") ∷ [] }

two_calls-Reach : Reach two_calls
unfolding held_by contains enqueue update set_phase
two_calls-Reach =
    later
      (later (later (later begun (call none "ann" outside refl)) (call none "ann" outside refl))
        (start 0 first_call refl refl at_once))
      (reenter 0 "ann" (inside {k = runs} refl (λ w. cc)) refl)

one_runs_in_turn_example :
    ((q : ℕ) (j : Call)
      → two_calls.calls q ≡ some j
      → j.user ≡ "ann"
      → (q < 0 → j.phase ≡ finished) × (0 < q → j.phase ≡ waiting))
    × ((p : ℕ)
        → contains (p, "ann") two_calls.inner ≡ true
        → Within two_calls 0 p
          ⊎ ((e : ℕ) × (m : Call) × (two_calls.calls e ≡ some m)
              × (m.user ≡ "ann")
              × (e < 0)
              × (m.phase ≡ finished)
              × Within two_calls e p))
unfolding enqueue update set_phase
one_runs_in_turn_example = one_runs_in_turn two_calls 0 runs two_calls-Reach refl refl

queue_moves_example :
    (e : ℕ) × (m : Call) × (two_calls.calls e ≡ some m)
    × (m.user ≡ "ann")
    × (e ≤ 1)
    × CanMove two_calls m
unfolding enqueue update set_phase
queue_moves_example = queue_moves two_calls 1 second_call two_calls-Reach refl refl
