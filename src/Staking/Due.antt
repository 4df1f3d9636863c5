-- ===== src/Staking/Due.antt =====
-- The sweep of src/engine/staking.ts takes exactly the withdrawals that are due.
use Prim.Native.String.{String}
use text.Mathlib.Text.{◌==◌ as str_eq}
use hy_paper.Prelude.{
  ℕ, ◌≡◌, refl, sym, ap, ◌∙◌, true, false, List, [], ◌∷◌, arith, if◌then◌else◌, leb, inl, inr, ◌⊎◌,
  Bool-cases,
}
use hy_paper.Prelude.Maps.{nat_keys, string_keys, update, contains, beq_refl}
use hy_paper.Decimal.{Decimal}
use hy_paper.Staking.{log_event, set_queue, complete, complete_each, due, sweep_staking_queue}
use hy_paper.Staking.Data.{Queued, queued_keys, StakingEnv, StakingState}
use hy_paper.Staking.Zset.{zrem}

-- The withdrawals that are not due.
pub pending : ℕ → List Queued → List Queued
pending now [] = []
pending now (q ∷ qs) = let rest = pending now qs in if leb q.unlock_time now then rest else q ∷ rest

take_all : List Queued → List Queued → List Queued
unfolding zrem
take_all [] qs = qs
take_all (e ∷ es) qs = take_all es (zrem e qs)

-- A withdrawal that is not due stays in front while those that are due are taken.
take_all_behind :
    (now : ℕ) (q : Queued) (es qs : List Queued)
    → leb q.unlock_time now ≡ false
    → take_all (due now es) (q ∷ qs) ≡ q ∷ take_all (due now es) qs
unfolding take_all due zrem
take_all_behind now q [] qs h = refl
take_all_behind now q (e ∷ es) qs h = elim (Bool-cases (leb e.unlock_time now)) [
  | inr later ↦ rw (due, later) (take_all_behind now q es qs h)
  | inl ready ↦ elim (Bool-cases (queued_keys.beq e q)) [
    | inr ne ↦ rw (due, ready, take_all, ne) (take_all_behind now q es (zrem e qs) h)
    | inl same ↦
        let eq : e ≡ q = (queued_keys.beq_iff e q).0 same in
        let clash : leb q.unlock_time now ≡ true =
          ap (λ (p : Queued). leb p.unlock_time now) (sym eq) ∙ ready in
        absurd (ground (arith, clash, h))
  ]
]

take_all-due : (now : ℕ) (qs : List Queued) → take_all (due now qs) qs ≡ pending now qs
unfolding take_all due pending zrem
take_all-due now [] = refl
take_all-due now (q ∷ qs) = elim (Bool-cases (leb q.unlock_time now)) [
  | inl ready ↦ rw (due, pending, ready, take_all, beq_refl q) (take_all-due now qs)
  | inr later ↦
      rw (due, pending, later)
        (take_all_behind now q qs qs later ∙ ap (λ r. q ∷ r) (take_all-due now qs))
]

pending-pending : (now : ℕ) (qs : List Queued) → pending now (pending now qs) ≡ pending now qs
unfolding pending
pending-pending now [] = refl
pending-pending now (q ∷ qs) = elim (Bool-cases (leb q.unlock_time now)) [
  | inl ready ↦ rw (pending, ready) (pending-pending now qs)
  | inr later ↦ rw (pending, later, pending, later) (ap (λ r. q ∷ r) (pending-pending now qs))
]

module _ {N : Type 0} where
  -- What a sweep leaves of the staking keys.
  pub record SameStakes (st after : StakingState N) : Type 0 where
    pub same_balance : (user : String) → after.staking_balance user ≡ st.staking_balance user
    pub same_delegations : (user : String) → after.delegations user ≡ st.delegations user

module _ {N : Type 0} ⦃d : Decimal N⦄ (se : StakingEnv) where
  complete_each-SameStakes :
      (user : String) (es : List Queued) (st : StakingState N)
      → SameStakes st (complete_each se user es st)
  unfolding complete_each complete log_event set_queue
  complete_each-SameStakes user [] st = record {
    same_balance = λ u. refl;
    same_delegations = λ u. refl;
  }
  complete_each-SameStakes user (e ∷ es) st =
      let rest = complete_each-SameStakes user es (complete se user e st) in
      record {
        same_balance = λ u. rest.same_balance u;
        same_delegations = λ u. rest.same_delegations u;
      }

  complete_each-queue :
      (user : String) (es : List Queued) (st : StakingState N)
      → (complete_each se user es st).staking_queue user ≡ take_all es (st.staking_queue user)
  unfolding complete_each complete log_event set_queue take_all update
  complete_each-queue user [] st = refl
  complete_each-queue user (e ∷ es) st =
      complete_each-queue user es (complete se user e st) ∙ rw (beq_refl user) refl

  -- Nothing of another user changes.
  complete_each-others :
      (user other : String) (es : List Queued) (st : StakingState N)
      → str_eq user other ≡ false
      → let after = complete_each se user es st in
        (after.staking_queue other ≡ st.staking_queue other) × (after.money other ≡ st.money other)
  unfolding complete_each complete log_event set_queue update
  complete_each-others user other [] st ne = (refl, refl)
  complete_each-others user other (e ∷ es) st ne =
      let rest = complete_each-others user other es (complete se user e st) ne in
      (rest.0 ∙ rw ne refl, rest.1 ∙ rw ne refl)

  -- One user's withdrawals that are due are completed.
  serve : String → StakingState N → StakingState N
  unfolding complete_each due
  serve user st = complete_each se user (due se.now (st.staking_queue user)) st

  serve-queue :
      (user other : String) (st : StakingState N)
      → (serve user st).staking_queue other ≡ (
          if str_eq user other
          then pending se.now (st.staking_queue other)
          else st.staking_queue other)
  unfolding serve
  serve-queue user other st = elim (Bool-cases (str_eq user other)) [
    | inr ne ↦ rw ne (complete_each-others user other (due se.now (st.staking_queue user)) st ne).0
    | inl e ↦
        let same : user ≡ other = (string_keys.beq_iff user other).0 e in
        rw (e, ← same)
          (complete_each-queue user (due se.now (st.staking_queue user)) st
            ∙ take_all-due se.now (st.staking_queue user))
  ]

  sweep-queue :
      (users : List String) (user : String) (st : StakingState N)
      → (sweep_staking_queue se users st).staking_queue user ≡ (
          if contains user users
          then pending se.now (st.staking_queue user)
          else st.staking_queue user)
  unfolding sweep_staking_queue contains serve
  sweep-queue [] user st = refl
  sweep-queue (u ∷ us) user st =
      sweep-queue us user (serve u st)
      ∙ rw (serve-queue u user st) (
          ground (
            arith,
            pending-pending se.now (st.staking_queue user),
            string_keys.beq_iff u user,
            string_keys.beq_iff user u,
          ))

  sweep-money :
      (users : List String) (user : String) (st : StakingState N)
      → contains user users ≡ false
      → (sweep_staking_queue se users st).money user ≡ st.money user
  unfolding sweep_staking_queue contains serve
  sweep-money [] user st out = refl
  sweep-money (u ∷ us) user st out =
      let ne : str_eq u user ≡ false =
        ground (arith, out, string_keys.beq_iff u user, string_keys.beq_iff user u) in
      sweep-money us user (serve u st) (ground (arith, out))
      ∙ (complete_each-others u user (due se.now (st.staking_queue u)) st ne).1

  sweep-SameStakes :
      (users : List String) (st : StakingState N) → SameStakes st (sweep_staking_queue se users st)
  unfolding sweep_staking_queue serve
  sweep-SameStakes [] st = record { same_balance = λ u. refl; same_delegations = λ u. refl }
  sweep-SameStakes (u ∷ us) st =
      let first = complete_each-SameStakes u (due se.now (st.staking_queue u)) st in
      let rest = sweep-SameStakes us (serve u st) in
      record {
        same_balance = λ v. rest.same_balance v ∙ first.same_balance v;
        same_delegations = λ v. rest.same_delegations v ∙ first.same_delegations v;
      }

  -- The sweep leaves in the queue of each user whom it visits exactly the withdrawals that are not due, in their
  -- order. It touches neither the queue nor the money of a user whom it does not visit, and no
  -- staking balance or delegation.
  pub sweep_takes_due :
      (users : List String) (user : String) (st : StakingState N)
      → let after = sweep_staking_queue se users st in
        (after.staking_queue user ≡ (
          if contains user users
          then pending se.now (st.staking_queue user)
          else st.staking_queue user))
        × ((after.money user ≡ st.money user) ⊎ (contains user users ≡ true))
        × (after.staking_balance user ≡ st.staking_balance user)
        × (after.delegations user ≡ st.delegations user)
  sweep_takes_due users user st =
      let same = sweep-SameStakes users st in
      (
        sweep-queue users user st,
        elim (Bool-cases (contains user users)) [
          | inl visited ↦ inr visited
          | inr out ↦ inl (sweep-money users user st out)
        ],
        same.same_balance user,
        same.same_delegations user,
      )
