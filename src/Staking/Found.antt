-- ===== src/Staking/Found.antt =====
-- The delegation that an undelegation of src/engine/staking.ts finds, and what is left of it.
use Prim.Native.String.{String}
use text.Mathlib.Text.{◌==◌ as str_eq}
use hy_paper.Prelude.{
  ℕ, ◌+◌, ◌-◌, ◌≤◌, ◌≡◌, refl, sym, ap, ◌∙◌, true, false, leb→le, some, List, [], ◌∷◌, arith, ltb,
  leb, total, inl, inr, Bool-cases,
}
use hy_paper.Prelude.Maps.{nat_keys, string_keys, pair_keys, contains, contains_head}
use hy_paper.Staking.{delegations_to, find_delegation, rest_of, add_delegation, keep_rest}
use hy_paper.Staking.Data.{Delegation, delegation_keys, queued_keys, StakingEnv}
use hy_paper.Staking.Zset.{total-zadd}

-- The delegation that is found stands in the set and has enough.
pub found_delegation :
    (validator : String) (wei : ℕ) (xs : List Delegation) (x : Delegation)
    → find_delegation wei (delegations_to validator xs) ≡ some x
    → (contains x xs ≡ true) × (wei ≤ x.wei)
unfolding find_delegation delegations_to contains
found_delegation validator wei [] x h = absurd (ground (arith, h))
found_delegation validator wei (y ∷ ys) x h = elim (Bool-cases (str_eq y.validator validator)) [
  | inr other ↦
      let rest = found_delegation validator wei ys x (rw (other, delegations_to) at h) in
      (ground (arith, rest.0), rest.1)
  | inl his ↦ elim (Bool-cases (leb wei y.wei)) [
    | inr small ↦
        let rest =
          found_delegation validator wei ys x
            (rw (his, delegations_to, find_delegation, small) at h) in
        (ground (arith, rest.0), rest.1)
    | inl big ↦
        let same : some y ≡ some x = rw (his, delegations_to, find_delegation, big) at h in
        let same_x : y ≡ x = cc same in
        (
          ap (λ (z : Delegation). contains z (y ∷ ys)) (sym same_x) ∙ contains_head y ys,
          leb→le wei x.wei (ap (λ (z : Delegation). leb wei z.wei) (sym same_x) ∙ big),
        )
  ]
]

pub keep_rest-total :
    (se : StakingEnv) (found : Delegation) (wei : ℕ) (xs : List Delegation)
    → contains (rest_of found wei) xs ≡ false
    → total (λ (y : Delegation). y.wei) (keep_rest se found wei xs)
      ≡ (found.wei - wei) + total (λ (y : Delegation). y.wei) xs
unfolding keep_rest add_delegation
keep_rest-total se found wei xs new = elim (Bool-cases (ltb 0 (found.wei - wei))) [
  | inr none_left ↦ rw (keep_rest, none_left) (ground arith)
  | inl some_left ↦
      rw (keep_rest, some_left)
        (total-zadd (λ (y : Delegation). y.locked_until) se.delegation_before
            (λ (y : Delegation). y.wei) (rest_of found wei) xs
          ∙ rw new refl)
]
