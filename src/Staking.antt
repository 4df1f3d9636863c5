-- ===== src/Staking.antt =====
-- src/engine/staking.ts: deposits, withdrawals, delegations and the sweep of the withdrawals that are due.
pub mod Data
pub mod Zset
pub mod Found
pub mod Conserved
pub mod Locks
pub mod Due
pub mod Collision
mod Examples
use Prim.Native.String.{String}
use text.Mathlib.Text.{◌==◌ as str_eq}
use hy_paper.Prelude.{
  ℕ, zero, suc, ◌+◌, ◌-◌, ◌≡◌, ap, Bool, true, false, not, ◌&&◌, Option, none, some, List, [], ◌∷◌,
  if◌then◌else◌, ltb, leb, ◌==◌, length, take, total,
}
use hy_paper.Prelude.Maps.{Eq, nat_keys, string_keys, pair_keys, update, contains}
use hy_paper.Prelude.Texts.{lower}
use hy_paper.Decimal.{Decimal, num, add, div}
use hy_paper.Staking.Zset.{zadd, zrem}
use hy_paper.Staking.Data.{
  Delegation, Queued, delegation_keys, queued_keys, StakingEnv, StakingError, StakingEvent,
  StakingState, WeiArg, delegated, deposited, fractional, insufficient_balance,
  insufficient_delegation, locked_for, no_delegation, no_validator, not_a_positive_number,
  not_an_integer, not_positive, one_day_ms, seven_days_ms, undelegated, whole, withdrawal_complete,
  withdrawn,
}

-- A refusal, or that all is well.
abbrev pub Reply : Type 0
Reply = Option StakingError

-- The amount, or why it is none.
pub data Checked : Type 0 where
  bad : StakingError → Checked
  amount : ℕ → Checked

pub check_wei : WeiArg → Checked
check_wei not_positive = bad not_a_positive_number
check_wei fractional = bad not_an_integer
check_wei (whole zero) = bad not_a_positive_number
check_wei (whole (suc n)) = amount (suc n)

-- The delegations to a validator, in the order of the set.
pub delegations_to : String → List Delegation → List Delegation
delegations_to validator [] = []
delegations_to validator (x ∷ xs) =
    let rest = delegations_to validator xs in
    if str_eq x.validator validator then x ∷ rest else rest

-- The first of them that has enough.
pub find_delegation : ℕ → List Delegation → Option Delegation
find_delegation wei [] = none
find_delegation wei (x ∷ xs) =
    let rest = find_delegation wei xs in if leb wei x.wei then some x else rest

-- The member that a withdrawal, a delegation, an undelegation adds.
abbrev pub queue_entry : StakingEnv → ℕ → Queued
queue_entry se wei = record { wei = wei; unlock_time = se.now + seven_days_ms; queued_at = se.now }

abbrev pub delegation_entry : StakingEnv → String → ℕ → Delegation
delegation_entry se validator wei = record {
  validator = validator;
  wei = wei;
  locked_until = se.now + one_day_ms;
  delegated_at = se.now;
}

abbrev pub rest_of : Delegation → ℕ → Delegation
rest_of x wei = record x { wei = x.wei - wei }

pub add_delegation : StakingEnv → Delegation → List Delegation → List Delegation
unfolding zadd
add_delegation se x xs = zadd (λ (y : Delegation). y.locked_until) se.delegation_before x xs

-- What is left of a delegation.
pub keep_rest : StakingEnv → Delegation → ℕ → List Delegation → List Delegation
unfolding add_delegation
keep_rest se x wei xs = if ltb 0 (x.wei - wei) then add_delegation se (rest_of x wei) xs else xs

-- The actions of the exchange route that stake.
pub data StakingAction : Type 0 where
  deposit_action : WeiArg → StakingAction
  withdraw_action : WeiArg → StakingAction
  delegate_action : String → WeiArg → Bool → StakingAction

-- What `getDelegatorSummary` reports, in wei.
pub record Summary : Type 0 where
  pub delegated_wei : ℕ
  pub undelegated_wei : ℕ
  pub pending_wei : ℕ
  pub pending_count : ℕ

-- Why no delegation was found.
short_delegation : ℕ → List Delegation → StakingError
short_delegation wei [] = no_delegation
short_delegation wei (x ∷ xs) =
    insufficient_delegation (total (λ (y : Delegation). y.wei) (x ∷ xs)) wei

append_event : StakingEvent → List StakingEvent → List StakingEvent
append_event event events = take 200 (event ∷ events)

module _ {N : Type 0} where
  -- `appendStakingEvent`
  pub log_event : String → StakingEvent → StakingState N → StakingState N
  unfolding update append_event
  log_event user event st = record st {
    staking_events = update st.staking_events user (append_event event (st.staking_events user));
  }

  pub set_balance : String → ℕ → StakingState N → StakingState N
  unfolding update
  set_balance user wei st = record st { staking_balance = update st.staking_balance user wei }

  pub set_delegations : String → List Delegation → StakingState N → StakingState N
  unfolding update
  set_delegations user xs st = record st { delegations = update st.delegations user xs }

  pub set_queue : String → List Queued → StakingState N → StakingState N
  unfolding update
  set_queue user xs st = record st { staking_queue = update st.staking_queue user xs }

  -- `cDeposit`
  pub c_deposit : StakingEnv → String → WeiArg → StakingState N → Reply × StakingState N
  unfolding check_wei set_balance log_event
  c_deposit se user arg st = elim (check_wei arg) [
    | bad e ↦ (some e, st)
    | amount wei ↦ (
      none,
      log_event user (deposited wei se.now) (set_balance user (st.staking_balance user + wei) st),
    )
  ]

  -- `cWithdraw`
  pub c_withdraw : StakingEnv → String → WeiArg → StakingState N → Reply × StakingState N
  unfolding check_wei set_balance set_queue log_event zadd
  c_withdraw se user arg st = elim (check_wei arg) [
    | bad e ↦ (some e, st)
    | amount wei ↦
        let current = st.staking_balance user in
        let entry = queue_entry se wei in
        let queue =
          zadd (λ (q : Queued). q.unlock_time) se.queued_before entry (st.staking_queue user) in
        if ltb current wei then (some (insufficient_balance current wei), st) else (
          none,
          log_event user (withdrawn wei entry.unlock_time se.now)
              (set_queue user queue (set_balance user (current - wei) st)),
        )
  ]

  pub delegate : StakingEnv → String → String → ℕ → StakingState N → Reply × StakingState N
  unfolding set_balance set_delegations log_event add_delegation
  delegate se user validator wei st =
      let staking = st.staking_balance user in
      let delegation = delegation_entry se validator wei in
      if ltb staking wei then (some (insufficient_balance staking wei), st) else (
        none,
        log_event user (delegated validator wei delegation.locked_until se.now) (
            set_delegations user (add_delegation se delegation (st.delegations user))
              (set_balance user (staking - wei) st)),
      )

  -- The writes of an undelegation from the delegation that was found.
  pub take_back :
      StakingEnv → String → String → ℕ → Delegation → StakingState N → Reply × StakingState N
  unfolding set_balance set_delegations log_event keep_rest zrem
  take_back se user validator wei found st =
      if ltb se.now found.locked_until
      then (some (locked_for (found.locked_until - se.now)), st)
      else (
        none,
        log_event user (undelegated validator wei se.now) (
            set_balance user (st.staking_balance user + wei) (
              set_delegations user (keep_rest se found wei (zrem found (st.delegations user))) st)),
      )

  pub undelegate : StakingEnv → String → String → ℕ → StakingState N → Reply × StakingState N
  unfolding delegations_to find_delegation take_back short_delegation
  undelegate se user validator wei st =
      let entries = delegations_to validator (st.delegations user) in
      elim (find_delegation wei entries) [
        | some found ↦ take_back se user validator wei found st
        | none ↦ (some (short_delegation wei entries), st)
      ]

  -- `tokenDelegate`
  pub token_delegate :
      StakingEnv → String → String → WeiArg → Bool → StakingState N → Reply × StakingState N
  unfolding check_wei delegate undelegate lower
  token_delegate se user validator arg is_undelegate st = elim (check_wei arg) [
    | bad e ↦ (some e, st)
    | amount wei ↦
        if str_eq validator ""
        then (some no_validator, st)
        else if is_undelegate
        then undelegate se user (lower validator) wei st
        else delegate se user (lower validator) wei st
  ]

  pub run_staking : StakingEnv → String → StakingAction → StakingState N → Reply × StakingState N
  unfolding c_deposit c_withdraw token_delegate
  run_staking se user (deposit_action arg) st = c_deposit se user arg st
  run_staking se user (withdraw_action arg) st = c_withdraw se user arg st
  run_staking se user (delegate_action validator arg is_undelegate) st =
      token_delegate se user validator arg is_undelegate st

  pub delegator_summary : String → StakingState N → Summary
  delegator_summary user st = record {
    delegated_wei = total (λ (x : Delegation). x.wei) (st.delegations user);
    undelegated_wei = st.staking_balance user;
    pending_wei = total (λ (q : Queued). q.wei) (st.staking_queue user);
    pending_count = length (st.staking_queue user);
  }

-- ZRANGEBYSCORE up to the clock
pub due : ℕ → List Queued → List Queued
due now [] = []
due now (q ∷ qs) = let rest = due now qs in if leb q.unlock_time now then q ∷ rest else rest

module _ {N : Type 0} ⦃d : Decimal N⦄ where
  money_of : Option N → N
  money_of none = num 0
  money_of (some b) = b

  -- One withdrawal that is due: the money gets 10^-8 of the wei, to six places.
  pub complete : StakingEnv → String → Queued → StakingState N → StakingState N
  unfolding update set_queue log_event zrem money_of
  complete se user entry st =
      let updated =
        d.places_half_up (add (money_of (st.money user)) (div (num entry.wei) (num 100_000_000)))
          6 in
      let paid : StakingState N = record st { money = update st.money user (some updated) } in
      log_event user (withdrawal_complete entry.wei se.now)
        (set_queue user (zrem entry (paid.staking_queue user)) paid)

  pub complete_each : StakingEnv → String → List Queued → StakingState N → StakingState N
  unfolding complete
  complete_each se user [] st = st
  complete_each se user (entry ∷ entries) st =
      complete_each se user entries (complete se user entry st)

  -- `sweepStakingQueue`, over the users whose queues SCAN finds.
  pub sweep_staking_queue : StakingEnv → List String → StakingState N → StakingState N
  unfolding complete_each due
  sweep_staking_queue se [] st = st
  sweep_staking_queue se (user ∷ users) st =
      sweep_staking_queue se users (complete_each se user (due se.now (st.staking_queue user)) st)
