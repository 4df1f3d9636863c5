-- ===== src/Staking/Examples.antt =====
-- src/engine/staking.ts on test data: Ann has 100 wei, a delegation of 30 and a pending withdrawal of 20.
use Prim.Native.String.{String}
use text.Mathlib.Text.{◌==◌ as str_eq}
use hy_paper.Prelude.{◌≡◌, refl, ◌⊎◌, true, false, some, List, [], ◌∷◌, if◌then◌else◌}
use hy_paper.Prelude.Int.{ℤ, pos}
use hy_paper.Prelude.Maps.{string_keys, contains}
use hy_paper.Decimal.Integers.{integers}
use hy_paper.Staking.{delegate_action, run_staking, sweep_staking_queue}
use hy_paper.Staking.Data.{
  Delegation, Queued, delegation_keys, queued_keys, StakingEnv, StakingState, whole,
}
use hy_paper.Staking.Conserved.{Conserves, deposit_of, collides, run_staking-Conserves}
use hy_paper.Staking.Locks.{locked_funds_stay}
use hy_paper.Staking.Due.{pending, sweep_takes_due}

abbrev clock : StakingEnv
clock = record { now = 1_000; delegation_before = λ a b. true; queued_before = λ a b. true }

abbrev delegation : Delegation
delegation = record { validator = "val"; wei = 30; locked_until = 2_000; delegated_at = 500 }

abbrev withdrawal : Queued
withdrawal = record { wei = 20; unlock_time = 900; queued_at = 100 }

abbrev state : StakingState ℤ
state = record {
  staking_balance = λ user. if str_eq user "ann" then 100 else 0;
  delegations = λ user. if str_eq user "ann" then delegation ∷ [] else [];
  staking_queue = λ user. if str_eq user "ann" then withdrawal ∷ [] else [];
  staking_events = λ user. [];
  money = λ user. some (pos 5);
}

abbrev users : List String
users = "ann" ∷ []

run_staking-Conserves_example :
    Conserves "ann"
      (deposit_of (delegate_action "val" (whole 40) false))
      state
      (run_staking clock "ann" (delegate_action "val" (whole 40) false) state)
unfolding collides contains
run_staking-Conserves_example =
    run_staking-Conserves clock "ann" (delegate_action "val" (whole 40) false) state refl

locked_funds_stay_example :
    let after = (run_staking clock "ann" (delegate_action "val" (whole 30) true) state).1 in
    (contains delegation (after.delegations "ann") ≡ true)
    × (contains withdrawal (after.staking_queue "ann") ≡ true)
unfolding contains
locked_funds_stay_example =
    locked_funds_stay clock "ann" delegation withdrawal (delegate_action "val" (whole 30) true)
      state refl refl refl

sweep_takes_due_example :
    let after = sweep_staking_queue clock users state in
    (after.staking_queue "ann" ≡ (
      if contains "ann" users
      then pending 1_000 (state.staking_queue "ann")
      else state.staking_queue "ann"))
    × ((after.money "ann" ≡ state.money "ann") ⊎ (contains "ann" users ≡ true))
    × (after.staking_balance "ann" ≡ state.staking_balance "ann")
    × (after.delegations "ann" ≡ state.delegations "ann")
sweep_takes_due_example = sweep_takes_due clock users "ann" state
