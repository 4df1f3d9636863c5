-- ===== src/Staking/Collision.antt =====
-- Two withdrawals of src/engine/staking.ts in one millisecond are one member of the queue.
use Prim.Native.String.{String}
use hy_paper.Prelude.{ℕ, suc, ◌+◌, ◌-◌, ◌≤◌, ◌≡◌, refl, true, false, none, arith, ltb}
use hy_paper.Prelude.Maps.{nat_keys, string_keys, pair_keys, update, contains, beq_refl}
use hy_paper.Staking.{
  check_wei, queue_entry, log_event, set_balance, set_queue, c_withdraw, delegator_summary,
}
use hy_paper.Staking.Data.{Queued, queued_keys, StakingEnv, StakingState, whole}
use hy_paper.Staking.Zset.{zadd, contains-zadd_self, total-zadd}
use hy_paper.Staking.Conserved.{staked}

module _ {N : Type 0} where
  accepted_withdrawal :
      (se : StakingEnv) (user : String) (n : ℕ) (st : StakingState N)
      → suc n ≤ st.staking_balance user
      → let done = c_withdraw se user (whole (suc n)) st in
        (done.0 ≡ none)
        × (done.1.staking_balance user ≡ st.staking_balance user - suc n)
        × (done.1.delegations user ≡ st.delegations user)
        × (done.1.staking_queue user
            ≡ zadd
                (λ (q : Queued). q.unlock_time)
                se.queued_before
                (queue_entry se (suc n))
                (st.staking_queue user))
  unfolding c_withdraw check_wei log_event set_balance set_queue update
  accepted_withdrawal se user n st enough =
      let covered : ltb (st.staking_balance user) (suc n) ≡ false = ground (arith, enough) in
      rw (c_withdraw, check_wei, covered)
        (refl, rw (beq_refl user) refl, refl, rw (beq_refl user) refl)

  -- When a user withdraws the same positive amount twice within a millisecond, the balance covers both and
  -- the queue has no such member before, both requests are accepted, and what the summary of the user
  -- reports in total is less by the amount: only one of the two is pending.
  pub same_moment_withdrawals_collide :
      (se : StakingEnv) (user : String) (n : ℕ) (st : StakingState N)
      → suc n + suc n ≤ st.staking_balance user
      → contains (queue_entry se (suc n)) (st.staking_queue user) ≡ false
      → let first = c_withdraw se user (whole (suc n)) st in
        let second = c_withdraw se user (whole (suc n)) first.1 in
        (first.0 ≡ none) × (second.0 ≡ none) × (suc n + staked user second.1 ≡ staked user st)
  unfolding delegator_summary
  same_moment_withdrawals_collide se user n st enough new =
      let entry = queue_entry se (suc n) in
      let first = c_withdraw se user (whole (suc n)) st in
      let one = accepted_withdrawal se user n st (omega arith) in
      let left : suc n ≤ first.1.staking_balance user = rw one.1 (omega arith) in
      let two = accepted_withdrawal se user n first.1 left in
      let score = λ (q : Queued). q.unlock_time in
      let there : contains entry (first.1.staking_queue user) ≡ true =
        rw one.3 (contains-zadd_self score se.queued_before entry (st.staking_queue user)) in
      let total_one =
        total-zadd score se.queued_before (λ (q : Queued). q.wei) entry (st.staking_queue user) in
      let total_two =
        total-zadd score se.queued_before (λ (q : Queued). q.wei) entry
          (first.1.staking_queue user) in
      (
        one.0,
        two.0,
        rw (two.1, two.2, two.3, total_two, there, one.1, one.2, one.3, total_one, new)
            (omega arith),
      )
