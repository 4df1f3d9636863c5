-- ===== src/Staking/Conserved.antt =====
-- What is staked, delegated and pending in src/engine/staking.ts is what was deposited.
use Prim.Native.String.{String}
use text.Mathlib.Text.{◌==◌ as str_eq}
use hy_paper.Prelude.{
  ℕ, ◌+◌, ◌≤◌, ◌≡◌, ◌⊎◌, refl, Bool, true, false, none, some, arith, ltb, inl, inr, Bool-cases,
  Option-cases,
}
use hy_paper.Prelude.Maps.{nat_keys, string_keys, pair_keys, update, contains, beq_refl}
use hy_paper.Prelude.Texts.{lower}
use hy_paper.Staking.{
  amount, Checked, bad, check_wei, Reply, delegations_to, find_delegation, queue_entry,
  delegation_entry, rest_of, add_delegation, log_event, set_balance, set_delegations, set_queue,
  c_deposit, c_withdraw, delegate, take_back, undelegate, token_delegate, StakingAction,
  deposit_action, withdraw_action, delegate_action, run_staking, delegator_summary,
}
use hy_paper.Staking.Data.{
  Delegation, Queued, delegation_keys, queued_keys, StakingEnv, StakingState, StakingError, WeiArg,
}
use hy_paper.Staking.Found.{found_delegation, keep_rest-total}
use hy_paper.Staking.Zset.{zrem, total-zadd, total-zrem}

-- What an accepted request puts into staking.
pub deposit_of : StakingAction → ℕ
unfolding check_wei
deposit_of (deposit_action arg) = elim (check_wei arg) [ bad e ↦ 0 | amount wei ↦ wei ]
deposit_of (withdraw_action arg) = 0
deposit_of (delegate_action validator arg is_undelegate) = 0

pub Checked-cases :
    (c : Checked) → ((e : StakingError) × (c ≡ bad e)) ⊎ ((wei : ℕ) × (c ≡ amount wei))
Checked-cases (bad e) = inl (e, refl)
Checked-cases (amount wei) = inr (wei, refl)

module _ {N : Type 0} where
  -- Whether the member that a request adds is in its set already.
  unfoldable pub undelegate_collides : String → String → ℕ → StakingState N → Bool
  unfolding find_delegation delegations_to zrem
  undelegate_collides user validator wei st =
      elim (find_delegation wei (delegations_to validator (st.delegations user))) [
        | none ↦ false
        | some found ↦ contains (rest_of found wei) (zrem found (st.delegations user))
      ]

  unfoldable pub collides : StakingEnv → String → StakingAction → StakingState N → Bool
  unfolding check_wei undelegate_collides lower
  collides se user (deposit_action arg) st = false
  collides se user (withdraw_action arg) st = elim (check_wei arg) [
    | bad e ↦ false
    | amount wei ↦ contains (queue_entry se wei) (st.staking_queue user)
  ]
  collides se user (delegate_action validator arg true) st = elim (check_wei arg) [
    | bad e ↦ false
    | amount wei ↦ undelegate_collides user (lower validator) wei st
  ]
  collides se user (delegate_action validator arg false) st = elim (check_wei arg) [
    | bad e ↦ false
    | amount wei ↦ contains (delegation_entry se (lower validator) wei) (st.delegations user)
  ]

  -- All that the summary of a user reports.
  abbrev pub staked : String → StakingState N → ℕ
  staked user st =
      let s = delegator_summary user st in s.delegated_wei + (s.undelegated_wei + s.pending_wei)

  -- A request is refused and changes nothing, or it is accepted: then the total of the user has grown by what was
  -- deposited, and nothing has changed for others.
  pub data Conserves (user : String) (put : ℕ) (st : StakingState N)
      : Reply × StakingState N → Type 0 where
    refused : (e : StakingError) → Conserves user put st (some e, st)
    accepted :
        {after : StakingState N}
        → staked user after ≡ put + staked user st
        → ((other : String)
            → str_eq user other ≡ false
            → delegator_summary other after ≡ delegator_summary other st)
        → Conserves user put st (none, after)

  c_deposit-Conserves :
      (se : StakingEnv) (user : String) (arg : WeiArg) (st : StakingState N)
      → Conserves user (deposit_of (deposit_action arg)) st (c_deposit se user arg st)
  unfolding c_deposit deposit_of delegator_summary log_event set_balance update
  c_deposit-Conserves se user arg st = elim (Checked-cases (check_wei arg)) [
    | inl (e, h) ↦ rw (h, c_deposit) (refused e)
    | inr (wei, h) ↦
        rw (h, c_deposit, deposit_of)
          (accepted (rw (beq_refl user) (omega arith)) (λ other ne. rw ne refl))
  ]

  c_withdraw-Conserves :
      (se : StakingEnv) (user : String) (arg : WeiArg) (st : StakingState N)
      → collides se user (withdraw_action arg) st ≡ false
      → Conserves user 0 st (c_withdraw se user arg st)
  unfolding c_withdraw collides delegator_summary log_event set_balance set_queue update
  c_withdraw-Conserves se user arg st fresh = elim (Checked-cases (check_wei arg)) [
    | inl (e, h) ↦ rw (h, c_withdraw) (refused e)
    | inr (wei, h) ↦ elim (Bool-cases (ltb (st.staking_balance user) wei)) [
      | inl short ↦ rw (h, c_withdraw, short) (refused _)
      | inr enough ↦
          let new : contains (queue_entry se wei) (st.staking_queue user) ≡ false =
            rw (h, collides) at fresh in
          rw (h, c_withdraw, enough)
            (accepted
              (rw
                (
                  beq_refl user,
                  total-zadd (λ (q : Queued). q.unlock_time) se.queued_before
                      (λ (q : Queued). q.wei) (queue_entry se wei) (st.staking_queue user),
                  new,
                )
                (ground arith))
              (λ other ne. rw ne refl))
    ]
  ]

  delegate-Conserves :
      (se : StakingEnv) (user validator : String) (wei : ℕ) (st : StakingState N)
      → contains (delegation_entry se validator wei) (st.delegations user) ≡ false
      → Conserves user 0 st (delegate se user validator wei st)
  unfolding delegate delegator_summary log_event set_balance set_delegations add_delegation update
  delegate-Conserves se user validator wei st new =
      elim (Bool-cases (ltb (st.staking_balance user) wei)) [
        | inl short ↦ rw (delegate, short) (refused _)
        | inr enough ↦
            rw (delegate, enough)
              (accepted
                (rw
                  (
                    beq_refl user,
                    total-zadd (λ (y : Delegation). y.locked_until) se.delegation_before
                        (λ (y : Delegation). y.wei) (delegation_entry se validator wei)
                        (st.delegations user),
                    new,
                  )
                  (ground arith))
                (λ other ne. rw ne refl))
      ]

  take_back-Conserves :
      (se : StakingEnv) (user validator : String) (wei : ℕ) (found : Delegation)
      (st : StakingState N)
      → contains found (st.delegations user) ≡ true
      → wei ≤ found.wei
      → contains (rest_of found wei) (zrem found (st.delegations user)) ≡ false
      → Conserves user 0 st (take_back se user validator wei found st)
  unfolding take_back delegator_summary log_event set_balance set_delegations update
  take_back-Conserves se user validator wei found st there enough new =
      let w = λ (y : Delegation). y.wei in
      let rest = keep_rest-total se found wei (zrem found (st.delegations user)) new in
      let before = total-zrem w found (st.delegations user) there in
      elim (Bool-cases (ltb se.now found.locked_until)) [
        | inl locked ↦ rw (take_back, locked) (refused _)
        | inr free ↦
            rw (take_back, free)
              (accepted (rw (beq_refl user, rest) (omega arith)) (λ other ne. rw ne refl))
      ]

  undelegate-Conserves :
      (se : StakingEnv) (user validator : String) (wei : ℕ) (st : StakingState N)
      → undelegate_collides user validator wei st ≡ false
      → Conserves user 0 st (undelegate se user validator wei st)
  unfolding undelegate undelegate_collides
  undelegate-Conserves se user validator wei st fresh =
      elim (Option-cases (find_delegation wei (delegations_to validator (st.delegations user)))) [
        | inl missing ↦ rw (undelegate, missing) (refused _)
        | inr (found, h) ↦
            let (there, enough) = found_delegation validator wei (st.delegations user) found h in
            rw (undelegate, h)
              (take_back-Conserves se user validator wei found st there enough
                (rw (undelegate_collides, h) at fresh))
      ]

  token_delegate-Conserves :
      (se : StakingEnv) (user validator : String) (arg : WeiArg) (back : Bool) (st : StakingState N)
      → collides se user (delegate_action validator arg back) st ≡ false
      → Conserves user 0 st (token_delegate se user validator arg back st)
  unfolding token_delegate collides
  token_delegate-Conserves se user validator arg back st fresh =
      elim (Checked-cases (check_wei arg)) [
        | inl (e, h) ↦ rw (h, token_delegate) (refused e)
        | inr (wei, h) ↦ elim (Bool-cases (str_eq validator "")) [
          | inl empty ↦ rw (h, token_delegate, empty) (refused _)
          | inr named ↦ elim (Bool-cases back) [
            | inl e ↦
                let new : undelegate_collides user (lower validator) wei st ≡ false =
                  rw (e, collides, h) at fresh in
                rw (h, token_delegate, named, e)
                  (undelegate-Conserves se user (lower validator) wei st new)
            | inr e ↦
                let new : contains (delegation_entry se (lower validator) wei) (st.delegations user)
                    ≡ false =
                  rw (e, collides, h) at fresh in
                rw (h, token_delegate, named, e)
                  (delegate-Conserves se user (lower validator) wei st new)
          ]
        ]
      ]

  -- Let the member that a request adds to a sorted set not be in it already. Then the request is refused and changes
  -- nothing; or what the summary of the user reports as delegated, undelegated and pending has grown in
  -- total by what was deposited, and the summary of every other user is the same.
  pub run_staking-Conserves :
      (se : StakingEnv) (user : String) (action : StakingAction) (st : StakingState N)
      → collides se user action st ≡ false
      → Conserves user (deposit_of action) st (run_staking se user action st)
  unfolding run_staking deposit_of
  run_staking-Conserves se user (deposit_action arg) st fresh = c_deposit-Conserves se user arg st
  run_staking-Conserves se user (withdraw_action arg) st fresh =
      c_withdraw-Conserves se user arg st fresh
  run_staking-Conserves se user (delegate_action validator arg back) st fresh =
      token_delegate-Conserves se user validator arg back st fresh
