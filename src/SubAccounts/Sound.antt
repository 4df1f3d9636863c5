-- ===== src/SubAccounts/Sound.antt =====
-- What every request of src/engine/subaccount.ts keeps.
use Prim.Native.String.{String}
use text.Mathlib.Text.{◌==◌ as str_eq}
use hy_paper.Prelude.{
  ◌≡◌, Bool, true, false, not, ◌||◌, Option, none, some, List, [], ◌∷◌, inl, inr, arith,
  if◌then◌else◌, Bool-cases, Option-cases,
}
use hy_paper.Prelude.Maps.{string_keys, pair_keys, update, contains}
use hy_paper.Prelude.Texts.{lower, trim}
use hy_paper.Decimal.{Decimal, num, add, sub, lte}
use hy_paper.Decimal.Order.{IsOrdered}
use hy_paper.Transfers.{bal_field, spot_field, hset, to_fixed, value_at}
use hy_paper.Transfers.Solvency.{
  IsSolvent, fixed_nonneg, value-nonneg, hset-Solvent, left_nonneg, move-Solvent,
}
use hy_paper.SubAccounts.{
  SubError, SubEnv, SubState, name_taken, check_name, is_sub_account_of, register,
  sub_account_modify, sub_account_spot_transfer, seed_dexes, open_wallet, ensure_account,
  create_sub_account, usd_amount, sub_account_transfer, equity_at, set_vault, found_vault,
  vault_transfer, SubRequest, create_request, modify_request, transfer_request, spot_request,
  vault_request, run_sub,
}

module _ {N : Type 0} ⦃d : Decimal N⦄ where
  -- No balance and no vault equity is below zero.
  pub record AllSolvent (st : SubState N) : Type 0 where
    pub balances : IsSolvent st.wallets
    pub equities :
        (key : String × String) (v : N) → st.vault_equities key ≡ some v → lte (num 0) v ≡ true

  -- What may come of a request.
  pub data SubOutcome (st : SubState N) : Option (SubError N) × SubState N → Type 0 where
    turned_down : (e : SubError N) → SubOutcome st (some e, st)
    carried : {after : SubState N} → AllSolvent after → SubOutcome st (none, after)

  module _ (order : IsOrdered N) where
    seed_dexes-AllSolvent :
        (wallet : String) (dexes : List String) (st : SubState N)
        → AllSolvent st
        → AllSolvent (seed_dexes wallet dexes st)
    unfolding seed_dexes
    seed_dexes-AllSolvent wallet [] st h = h
    seed_dexes-AllSolvent wallet (dex ∷ dexes) st h =
        elim (Bool-cases (str_eq dex "" || st.seeded (wallet, dex))) [
          | inl skip ↦ rw (skip, seed_dexes) (seed_dexes-AllSolvent wallet dexes st h)
          | inr fresh ↦
              rw (fresh, seed_dexes)
                (seed_dexes-AllSolvent wallet dexes _ (record {
                  balances =
                      hset-Solvent order (wallet, bal_field dex) (num 0) st.wallets
                        (order.lte_refl (num 0)) h.balances;
                  equities = h.equities;
                }))
        ]

    seed_nonneg :
        (se : SubEnv N)
        → lte (num 0) se.default_balance ≡ true
        → (is_sub : Bool) → lte (num 0) (if is_sub then num 0 else se.default_balance) ≡ true
    seed_nonneg se seeded true = order.lte_refl (num 0)
    seed_nonneg se seeded false = seeded

    open_wallet-AllSolvent :
        (se : SubEnv N) (wallet : String) (st : SubState N)
        → lte (num 0) se.default_balance ≡ true
        → AllSolvent st
        → AllSolvent (open_wallet se wallet st)
    unfolding open_wallet
    open_wallet-AllSolvent se wallet st seeded h =
        let is_sub : Bool = elim (st.sub_master wallet) [
          | none ↦ false
          | some m ↦ not (str_eq m "")
        ] in
        let seed : N = if is_sub then num 0 else se.default_balance in
        record {
          balances =
              hset-Solvent order (wallet, spot_field) (num 0)
                (hset (wallet, bal_field "") seed st.wallets) (order.lte_refl (num 0))
                (hset-Solvent order (wallet, bal_field "") seed st.wallets
                  (seed_nonneg se seeded is_sub) h.balances);
          equities = h.equities;
        }

    either-AllSolvent :
        (b : Bool) (x y : SubState N)
        → AllSolvent x
        → AllSolvent y
        → AllSolvent (if b then x else y)
    either-AllSolvent true x y p q = p
    either-AllSolvent false x y p q = q

    ensure_account-AllSolvent :
        (se : SubEnv N) (wallet : String) (st : SubState N)
        → lte (num 0) se.default_balance ≡ true
        → AllSolvent st
        → AllSolvent (ensure_account se wallet st)
    unfolding ensure_account
    ensure_account-AllSolvent se wallet st seeded h = seed_dexes-AllSolvent wallet se.dexes _ (
        either-AllSolvent (contains wallet st.existing) st (open_wallet se wallet st) h
          (open_wallet-AllSolvent se wallet st seeded h))

    create-SubOutcome :
        (se : SubEnv N) (master name : String) (st : SubState N)
        → lte (num 0) se.default_balance ≡ true
        → AllSolvent st
        → SubOutcome st (create_sub_account se master name st)
    unfolding create_sub_account register
    create-SubOutcome se master name st seeded h =
        elim (Option-cases (check_name {N = N} (trim name))) [
          | inr (e, bad) ↦ rw (bad, create_sub_account) (turned_down e)
          | inl fine ↦ elim (Bool-cases (name_taken (trim name) "" (st.sub_accounts master) st)) [
            | inl taken ↦ rw (fine, create_sub_account, taken) (turned_down _)
            | inr free ↦
                rw (fine, create_sub_account, free)
                  (carried (
                    ensure_account-AllSolvent se _ _ seeded
                      (record { balances = h.balances; equities = h.equities })))
          ]
        ]

    modify-SubOutcome :
        (master sub_user name : String) (st : SubState N)
        → AllSolvent st
        → SubOutcome st (sub_account_modify master sub_user name st)
    unfolding sub_account_modify
    modify-SubOutcome master sub_user name st h =
        let addr = lower sub_user in
        elim (Option-cases (check_name {N = N} (trim name))) [
          | inr (e, bad) ↦ rw (bad, sub_account_modify) (turned_down e)
          | inl fine ↦ elim (Bool-cases (is_sub_account_of master addr st)) [
            | inr foreign ↦ rw (fine, sub_account_modify, foreign) (turned_down _)
            | inl own ↦
                elim (Bool-cases (name_taken (trim name) addr (st.sub_accounts master) st)) [
                  | inl taken ↦ rw (fine, sub_account_modify, own, taken) (turned_down _)
                  | inr free ↦ elim (Option-cases (st.sub_meta addr)) [
                    | inl missing ↦ rw (fine, sub_account_modify, own, free, missing) (carried h)
                    | inr (m, e) ↦
                        rw (fine, sub_account_modify, own, free, e)
                          (carried (record { balances = h.balances; equities = h.equities }))
                  ]
                ]
          ]
        ]

    transfer-SubOutcome :
        (master sub_user : String) (is_deposit : Bool) (usd : N) (st : SubState N)
        → AllSolvent st
        → SubOutcome st (sub_account_transfer master sub_user is_deposit usd st)
    unfolding sub_account_transfer
    transfer-SubOutcome master sub_user is_deposit usd st h =
        let addr = lower sub_user in
        let a = usd_amount usd in
        let from : String × String = (if is_deposit then master else addr, bal_field "") in
        let to : String × String = (if is_deposit then addr else master, bal_field "") in
        elim (Bool-cases (is_sub_account_of master addr st)) [
          | inr foreign ↦ rw (foreign, sub_account_transfer) (turned_down _)
          | inl own ↦ elim (Bool-cases (lte a (num 0))) [
            | inl bad ↦ rw (own, sub_account_transfer, bad) (turned_down _)
            | inr positive ↦ elim (Bool-cases (lte a (value_at from st.wallets))) [
              | inr short ↦ rw (own, sub_account_transfer, positive, short) (turned_down _)
              | inl covered ↦
                  rw (own, sub_account_transfer, positive, covered)
                    (carried (record {
                      balances =
                          move-Solvent order from to a st.wallets
                            (order.lte_total a (num 0) positive) covered h.balances;
                      equities = h.equities;
                    }))
            ]
          ]
        ]

    spot-SubOutcome :
        (master sub_user : String) (st : SubState N)
        → AllSolvent st
        → SubOutcome st (sub_account_spot_transfer master sub_user st)
    unfolding sub_account_spot_transfer
    spot-SubOutcome master sub_user st h =
        elim (Bool-cases (is_sub_account_of master (lower sub_user) st)) [
          | inl own ↦ rw (own, sub_account_spot_transfer) (carried h)
          | inr foreign ↦ rw (foreign, sub_account_spot_transfer) (turned_down _)
        ]

    equity-nonneg :
        (key : String × String) (st : SubState N)
        → AllSolvent st
        → lte (num 0) (equity_at key st) ≡ true
    unfolding equity_at
    equity-nonneg key st h = elim (Option-cases (st.vault_equities key)) [
      | inl e ↦ rw (e, equity_at) (order.lte_refl (num 0))
      | inr (v, e) ↦ rw (e, equity_at) (h.equities key v e)
    ]

    set_vault-AllSolvent :
        (user vault : String) (balance equity : N) (st : SubState N)
        → lte (num 0) (to_fixed balance) ≡ true
        → lte (num 0) (to_fixed equity) ≡ true
        → AllSolvent st
        → AllSolvent (set_vault user vault balance equity st)
    unfolding set_vault update
    set_vault-AllSolvent user vault balance equity st p q h = record {
      balances = hset-Solvent order (user, bal_field "") (to_fixed balance) st.wallets p h.balances;
      equities = λ key v e. elim (Bool-cases (pair_keys.beq (user, vault) key)) [
        | inl own ↦ let same : to_fixed equity ≡ v = ground (arith, e, own) in rw (← same) q
        | inr other ↦ h.equities key v (rw other at e)
      ];
    }

    found_vault-AllSolvent :
        (user vault : String) (st : SubState N)
        → AllSolvent st
        → AllSolvent (found_vault user vault st)
    unfolding found_vault
    found_vault-AllSolvent user vault st h = elim (Option-cases (st.vault_leader vault)) [
      | inl e ↦ rw (e, found_vault) (record { balances = h.balances; equities = h.equities })
      | inr (leader, e) ↦ rw (e, found_vault) h
    ]

    vault-SubOutcome :
        (user vault_address : String) (is_deposit : Bool) (usd : N) (st : SubState N)
        → AllSolvent st
        → SubOutcome st (vault_transfer user vault_address is_deposit usd st)
    unfolding vault_transfer
    vault-SubOutcome user vault_address is_deposit usd st h =
        let vault = lower vault_address in
        let a = usd_amount usd in
        let key : String × String = (user, bal_field "") in
        let balance = value_at key st.wallets in
        let equity = equity_at (user, vault) st in
        let more = λ (v : N) (p : lte (num 0) v ≡ true) (q : lte a (num 0) ≡ false).
          fixed_nonneg order (add v a) (order.add_nonneg v a p (order.lte_total a (num 0) q)) in
        elim (Bool-cases (lte a (num 0))) [
          | inl bad ↦ rw (bad, vault_transfer) (turned_down _)
          | inr positive ↦ elim (Bool-cases is_deposit) [
            | inl e ↦ elim (Bool-cases (lte a balance)) [
              | inr short ↦ rw (positive, vault_transfer, e, short) (turned_down _)
              | inl covered ↦
                  rw (positive, vault_transfer, e, covered)
                    (carried (
                      found_vault-AllSolvent user vault _ (
                        set_vault-AllSolvent user vault (sub balance a) (add equity a) st
                          (left_nonneg order balance a covered)
                          (more equity (equity-nonneg (user, vault) st h) positive) h)))
            ]
            | inr e ↦ elim (Bool-cases (lte a equity)) [
              | inr short ↦ rw (positive, vault_transfer, e, short) (turned_down _)
              | inl covered ↦
                  rw (positive, vault_transfer, e, covered)
                    (carried (
                      set_vault-AllSolvent user vault (add balance a) (sub equity a) st
                        (more balance (value-nonneg order key st.wallets h.balances) positive)
                        (left_nonneg order equity a covered) h))
            ]
          ]
        ]

    -- With rounding that respects the order, a default balance that is not negative, and no balance or vault
    -- equity below zero, a request on sub-accounts or vaults is refused and changes nothing, or it is carried
    -- out and leaves no balance or vault equity below zero.
    pub sub_requests_are_sound :
        (se : SubEnv N) (user : String) (request : SubRequest N) (st : SubState N)
        → lte (num 0) se.default_balance ≡ true
        → AllSolvent st
        → SubOutcome st (run_sub se user request st)
    unfolding run_sub
    sub_requests_are_sound se user (create_request name) st seeded h =
        create-SubOutcome se user name st seeded h
    sub_requests_are_sound se user (modify_request sub_user name) st seeded h =
        modify-SubOutcome user sub_user name st h
    sub_requests_are_sound se user (transfer_request sub_user is_deposit usd) st seeded h =
        transfer-SubOutcome user sub_user is_deposit usd st h
    sub_requests_are_sound se user (spot_request sub_user) st seeded h =
        spot-SubOutcome user sub_user st h
    sub_requests_are_sound se user (vault_request vault_address is_deposit usd) st seeded h =
        vault-SubOutcome user vault_address is_deposit usd st h
