-- ===== src/SubAccounts/Examples.antt =====
-- src/engine/subaccount.ts on test data: Ann has 500 and a sub-account.
use text.Mathlib.Text.{◌==◌ as str_eq}
use hy_paper.Prelude.{
  ◌≡◌, refl, true, false, none, some, [], ◌∷◌, if◌then◌else◌, inl, inr, arith, Bool-cases,
}
use hy_paper.Prelude.Int.{ℤ, pos}
use hy_paper.Prelude.Maps.{string_keys, pair_keys}
use hy_paper.Decimal.Integers.{integers, integers-IsOrdered}
use hy_paper.SubAccounts.{SubEnv, SubState, transfer_request, run_sub}
use hy_paper.SubAccounts.Sound.{AllSolvent, SubOutcome, sub_requests_are_sound}

abbrev env : SubEnv ℤ
env = record { now = 1_000; default_balance = pos 100; dexes = "xyz" ∷ [] }

abbrev state : SubState ℤ
state = record {
  wallets = record {
    accounts = λ k. if pair_keys.beq ("ann", "balance") k then some (pos 500) else none;
    updates = [];
  };
  existing = "ann" ∷ [];
  seeded = λ k. false;
  sub_accounts = λ user. if str_eq user "ann" then "sub" ∷ [] else [];
  sub_meta = λ addr. none;
  sub_master = λ addr. if str_eq addr "sub" then some "ann" else none;
  vault_equities = λ k. none;
  vault_leader = λ vault. none;
  ledger = [];
}

state-AllSolvent : AllSolvent state
state-AllSolvent = record {
  balances = λ key v e. elim (Bool-cases (pair_keys.beq ("ann", "balance") key)) [
    | inl own ↦ let same : pos 500 ≡ v = ground (arith, e, own) in rw (← same) refl
    | inr other ↦ absurd (ground (arith, e, other))
  ];
  equities = λ key v e. absurd (ground (arith, e));
}

sub_requests_are_sound_example :
    SubOutcome state (run_sub env "ann" (transfer_request "sub" true (pos 2_000_000)) state)
sub_requests_are_sound_example =
    sub_requests_are_sound integers-IsOrdered env "ann"
      (transfer_request "sub" true (pos 2_000_000)) state refl state-AllSolvent
