-- ===== src/Staking/Locks.antt =====
-- No request takes a delegation of src/engine/staking.ts that is locked, nor a withdrawal that is pending.
use Prim.Native.String.{String}
use text.Mathlib.Text.{◌==◌ as str_eq}
use hy_paper.Prelude.{
  ℕ, ◌≡◌, sym, ap, ◌∙◌, Bool, true, false, List, arith, ltb, ◌-◌, inl, inr, Bool-cases,
  Option-cases,
}
use hy_paper.Prelude.Maps.{nat_keys, string_keys, pair_keys, update, contains, beq_refl}
use hy_paper.Prelude.Texts.{lower}
use hy_paper.Staking.{
  check_wei, delegations_to, find_delegation, queue_entry, delegation_entry, rest_of,
  add_delegation, keep_rest, log_event, set_balance, set_delegations, set_queue, c_deposit,
  c_withdraw, delegate, take_back, undelegate, token_delegate, StakingAction, deposit_action,
  withdraw_action, delegate_action, run_staking,
}
use hy_paper.Staking.Data.{
  Delegation, Queued, delegation_keys, queued_keys, StakingEnv, StakingState, WeiArg,
}
use hy_paper.Staking.Zset.{zrem, contains-zadd, contains-zrem}
use hy_paper.Staking.Conserved.{Checked-cases}

module _ (se : StakingEnv) (x : Delegation) where
  added-held :
      (new : Delegation) (xs : List Delegation)
      → contains x xs ≡ true
      → contains x (add_delegation se new xs) ≡ true
  unfolding add_delegation
  added-held new xs h =
      contains-zadd (λ (y : Delegation). y.locked_until) se.delegation_before new x xs h

  -- A locked delegation is not one that is not locked.
  other_delegation :
      (found : Delegation)
      → ltb se.now x.locked_until ≡ true
      → ltb se.now found.locked_until ≡ false
      → delegation_keys.beq x found ≡ false
  other_delegation found locked free = elim (Bool-cases (delegation_keys.beq x found)) [
    | inr ne ↦ ne
    | inl e ↦
        let same : x ≡ found = (delegation_keys.beq_iff x found).0 e in
        let clash : ltb se.now found.locked_until ≡ true =
          ap (λ (y : Delegation). ltb se.now y.locked_until) (sym same) ∙ locked in
        absurd (ground (arith, clash, free))
  ]

module _ {N : Type 0} (se : StakingEnv) (user : String) (x : Delegation) (q : Queued) where
  -- The delegation and the withdrawal are there.
  record Kept (st : StakingState N) : Type 0 where
    held : contains x (st.delegations user) ≡ true
    pending : contains q (st.staking_queue user) ≡ true

  -- A state with the same delegations or more, and the same queue or more.
  c_deposit-Kept :
      (arg : WeiArg) (st : StakingState N) → Kept st → Kept (c_deposit se user arg st).1
  unfolding c_deposit log_event set_balance
  c_deposit-Kept arg st k = elim (Checked-cases (check_wei arg)) [
    | inl (e, h) ↦ rw (h, c_deposit) k
    | inr (wei, h) ↦ rw (h, c_deposit) (record { held = k.held; pending = k.pending })
  ]

  c_withdraw-Kept :
      (arg : WeiArg) (st : StakingState N) → Kept st → Kept (c_withdraw se user arg st).1
  unfolding c_withdraw log_event set_balance set_queue update
  c_withdraw-Kept arg st k = elim (Checked-cases (check_wei arg)) [
    | inl (e, h) ↦ rw (h, c_withdraw) k
    | inr (wei, h) ↦ elim (Bool-cases (ltb (st.staking_balance user) wei)) [
      | inl short ↦ rw (h, c_withdraw, short) k
      | inr enough ↦
          rw (h, c_withdraw, enough)
            (record {
              held = k.held;
              pending = rw (beq_refl user) (
                  contains-zadd (λ (p : Queued). p.unlock_time) se.queued_before
                    (queue_entry se wei) q (st.staking_queue user) k.pending);
            })
    ]
  ]

  delegate-Kept :
      (validator : String) (wei : ℕ) (st : StakingState N)
      → Kept st
      → Kept (delegate se user validator wei st).1
  unfolding delegate log_event set_balance set_delegations update
  delegate-Kept validator wei st k = elim (Bool-cases (ltb (st.staking_balance user) wei)) [
    | inl short ↦ rw (delegate, short) k
    | inr enough ↦
        rw (delegate, enough)
          (record {
            held =
                rw (beq_refl user) (
                  added-held se x (delegation_entry se validator wei) (st.delegations user) k.held);
            pending = k.pending;
          })
  ]

  take_back-Kept :
      (validator : String) (wei : ℕ) (found : Delegation) (st : StakingState N)
      → ltb se.now x.locked_until ≡ true
      → Kept st
      → Kept (take_back se user validator wei found st).1
  unfolding take_back keep_rest log_event set_balance set_delegations update
  take_back-Kept validator wei found st locked k =
      elim (Bool-cases (ltb se.now found.locked_until)) [
        | inl e ↦ rw (take_back, e) k
        | inr free ↦
            let there =
              contains-zrem found x (st.delegations user) (other_delegation se x found locked free)
                k.held in
            elim (Bool-cases (ltb 0 (found.wei - wei))) [
              | inl left ↦
                  rw (take_back, free, keep_rest, left)
                    (record {
                      held = rw (beq_refl user) (
                          added-held se x (rest_of found wei) (zrem found (st.delegations user))
                            there);
                      pending = k.pending;
                    })
              | inr empty ↦
                  rw (take_back, free, keep_rest, empty)
                    (record { held = rw (beq_refl user) there; pending = k.pending })
            ]
      ]

  undelegate-Kept :
      (validator : String) (wei : ℕ) (st : StakingState N)
      → ltb se.now x.locked_until ≡ true
      → Kept st
      → Kept (undelegate se user validator wei st).1
  unfolding undelegate
  undelegate-Kept validator wei st locked k =
      elim (Option-cases (find_delegation wei (delegations_to validator (st.delegations user)))) [
        | inl missing ↦ rw (undelegate, missing) k
        | inr (found, h) ↦ rw (undelegate, h) (take_back-Kept validator wei found st locked k)
      ]

  token_delegate-Kept :
      (validator : String) (arg : WeiArg) (back : Bool) (st : StakingState N)
      → ltb se.now x.locked_until ≡ true
      → Kept st
      → Kept (token_delegate se user validator arg back st).1
  unfolding token_delegate
  token_delegate-Kept validator arg back st locked k = elim (Checked-cases (check_wei arg)) [
    | inl (e, h) ↦ rw (h, token_delegate) k
    | inr (wei, h) ↦ elim (Bool-cases (str_eq validator "")) [
      | inl empty ↦ rw (h, token_delegate, empty) k
      | inr named ↦ elim (Bool-cases back) [
        | inl e ↦
            rw (h, token_delegate, named, e) (undelegate-Kept (lower validator) wei st locked k)
        | inr e ↦ rw (h, token_delegate, named, e) (delegate-Kept (lower validator) wei st k)
      ]
    ]
  ]

  run_staking-Kept :
      (action : StakingAction) (st : StakingState N)
      → ltb se.now x.locked_until ≡ true
      → Kept st
      → Kept (run_staking se user action st).1
  unfolding run_staking
  run_staking-Kept (deposit_action arg) st locked k = c_deposit-Kept arg st k
  run_staking-Kept (withdraw_action arg) st locked k = c_withdraw-Kept arg st k
  run_staking-Kept (delegate_action validator arg back) st locked k =
      token_delegate-Kept validator arg back st locked k

  -- Whatever a user asks for, a delegation of theirs whose lock has not ended stays, and so does every
  -- withdrawal that is pending.
  pub locked_funds_stay :
      (action : StakingAction) (st : StakingState N)
      → contains x (st.delegations user) ≡ true
      → ltb se.now x.locked_until ≡ true
      → contains q (st.staking_queue user) ≡ true
      → let after = (run_staking se user action st).1 in
        (contains x (after.delegations user) ≡ true)
        × (contains q (after.staking_queue user) ≡ true)
  locked_funds_stay action st there locked queued =
      let k = run_staking-Kept action st locked (record { held = there; pending = queued }) in
      (k.held, k.pending)
