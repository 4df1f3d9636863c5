-- ===== src/Staking/Data.antt =====
-- The data of src/engine/staking.ts: the members of its sorted sets, its requests, events and refusals.
use Prim.Native.String.{String}
use hy_paper.Prelude.{ℕ, ap, Bool, Option, List}
use hy_paper.Prelude.Maps.{Eq, nat_keys, string_keys, pair_keys}

-- SEVEN_DAYS_MS and ONE_DAY_MS
abbrev pub seven_days_ms : ℕ
seven_days_ms = 604_800_000

abbrev pub one_day_ms : ℕ
one_day_ms = 86_400_000

-- A member of USER_DELEGATIONS and one of USER_STAKING_QUEUE. The scores are the times at which they unlock.
pub record Delegation : Type 0 where
  pub validator : String
  pub wei : ℕ
  pub locked_until : ℕ
  pub delegated_at : ℕ

pub record Queued : Type 0 where
  pub wei : ℕ
  pub unlock_time : ℕ
  pub queued_at : ℕ

abbrev pub delegation_code : Delegation → (String × ℕ) × (ℕ × ℕ)
delegation_code x = ((x.validator, x.wei), (x.locked_until, x.delegated_at))

abbrev pub queued_code : Queued → ℕ × (ℕ × ℕ)
queued_code x = (x.wei, (x.unlock_time, x.queued_at))

abbrev pub delegation_of : (String × ℕ) × (ℕ × ℕ) → Delegation
delegation_of c = record {
  validator = c.0.0;
  wei = c.0.1;
  locked_until = c.1.0;
  delegated_at = c.1.1;
}

abbrev pub queued_of : ℕ × (ℕ × ℕ) → Queued
queued_of c = record { wei = c.0; unlock_time = c.1.0; queued_at = c.1.1 }

-- Two members are one if their texts are.
instance abbrev pub delegation_keys : Eq Delegation
delegation_keys = record {
  beq = λ a b. pair_keys.beq (delegation_code a) (delegation_code b);
  beq_iff = λ a b.
      let codes = pair_keys.beq_iff (delegation_code a) (delegation_code b) in
      (λ h. ap delegation_of (codes.0 h), λ p. codes.1 (ap delegation_code p));
}

instance abbrev pub queued_keys : Eq Queued
queued_keys = record {
  beq = λ a b. pair_keys.beq (queued_code a) (queued_code b);
  beq_iff = λ a b.
      let codes = pair_keys.beq_iff (queued_code a) (queued_code b) in
      (λ h. ap queued_of (codes.0 h), λ p. codes.1 (ap queued_code p));
}

-- What is logged in STAKING_EVENTS.
pub data StakingEvent : Type 0 where
  deposited : (wei timestamp : ℕ) → StakingEvent
  withdrawn : (wei unlock_time timestamp : ℕ) → StakingEvent
  delegated : (validator : String) (wei locked_until timestamp : ℕ) → StakingEvent
  undelegated : (validator : String) (wei timestamp : ℕ) → StakingEvent
  withdrawal_complete : (wei timestamp : ℕ) → StakingEvent

-- The amount of a request: a JS number.
pub data WeiArg : Type 0 where
  not_positive : WeiArg
  fractional : WeiArg
  whole : ℕ → WeiArg

pub data StakingError : Type 0 where
  not_a_positive_number not_an_integer no_validator no_delegation : StakingError
  insufficient_balance : (have need : ℕ) → StakingError
  insufficient_delegation : (total need : ℕ) → StakingError
  locked_for : (remaining_ms : ℕ) → StakingError

-- The clock, and the order of the texts of two members, by which Redis sorts those of one score.
pub record StakingEnv : Type 0 where
  pub now : ℕ
  pub delegation_before : Delegation → Delegation → Bool
  pub queued_before : Queued → Queued → Bool

-- The keys of a user. `money` is the field `balance` of USER_ACCOUNT.
pub record StakingState (N : Type 0) : Type 0 where
  pub staking_balance : String → ℕ
  pub delegations : String → List Delegation
  pub staking_queue : String → List Queued
  pub staking_events : String → List StakingEvent
  pub money : String → Option N
