-- ===== src/SubAccounts.antt =====
-- src/engine/subaccount.ts: sub-accounts, transfers with them, and deposits into vaults; with
-- ensureAccount of src/api/middleware/auth.ts, which creates the accounts.
pub mod Address
pub mod Sound
mod Examples
use Prim.Native.String.{String, ◌++◌, len}
use text.Mathlib.Text.{◌==◌ as str_eq}
use hy_paper.Prelude.{
  ℕ, Bool, true, false, not, ◌&&◌, ◌||◌, Option, none, some, List, [], ◌∷◌, if◌then◌else◌, ltb,
}
use hy_paper.Prelude.Maps.{string_keys, pair_keys, update, contains, sadd}
use hy_paper.Prelude.Texts.{lower, trim}
use hy_paper.Decimal.{Decimal, num, add, sub, div, lt, lte, neg}
use hy_paper.Transfers.{
  Error, not_positive, insufficient, Wallets, bal_field, spot_field, hset, to_fixed, value_at, move,
}
use hy_paper.SubAccounts.Address.{sub_address}

pub data SubError (N : Type 0) : Type 0 where
  empty_name name_too_long name_exists not_owned : SubError N
  money_error : Error N → SubError N

-- What is on record of a sub-account.
pub record SubMeta : Type 0 where
  pub name : String
  pub master : String
  pub created_at : ℕ

-- A row of the ledger: user, amount, and sender and receiver of a transfer.
pub record LedgerRow (N : Type 0) : Type 0 where
  pub user : String
  pub usdc : N
  pub ends : Option (String × String)

-- What the environment gives: the clock, DEFAULT_BALANCE and the names of the sub-dexes.
pub record SubEnv (N : Type 0) : Type 0 where
  pub now : ℕ
  pub default_balance : N
  pub dexes : List String

pub record SubState (N : Type 0) : Type 0 where
  -- the fields of USER_ACCOUNT, and the users who have such a hash
  pub wallets : Wallets N
  pub existing : List String
  -- the markers `seeded:<dex>`, by user and dex
  pub seeded : String × String → Bool
  -- USER_SUBACCOUNTS, SUBACCOUNT_META, SUBACCOUNT_MASTER
  pub sub_accounts : String → List String
  pub sub_meta : String → Option SubMeta
  pub sub_master : String → Option String
  -- USER_VAULT_EQUITIES by user and vault, and the leader of VAULT_META
  pub vault_equities : String × String → Option N
  pub vault_leader : String → Option String
  pub ledger : List (LedgerRow N)

module _ {N : Type 0} where
  -- Whether a sub-account of the list, but the one given, has the name.
  pub name_taken : String → String → List String → SubState N → Bool
  unfolding lower
  name_taken name self [] st = false
  name_taken name self (s ∷ ss) st =
      let rest = name_taken name self ss st in
      if str_eq (lower s) self then rest else elim (st.sub_meta s) [
        | none ↦ rest
        | some m ↦ str_eq (lower m.name) (lower name) || rest
      ]

  pub check_name : String → Option (SubError N)
  check_name trimmed =
      if str_eq trimmed ""
      then some empty_name
      else if ltb 16 (len trimmed)
      then some name_too_long
      else none

  -- `isSubAccountOf`, for an address in lower case
  pub is_sub_account_of : String → String → SubState N → Bool
  unfolding lower
  is_sub_account_of master addr st = elim (st.sub_master addr) [
    | none ↦ false
    | some m ↦ not (str_eq m "") && str_eq (lower m) (lower master)
  ]

  -- The writes on the records of a new sub-account.
  pub register : SubEnv N → String → String → String → SubState N → SubState N
  unfolding update sadd
  register se master name addr st = record st {
    sub_accounts = update st.sub_accounts master (sadd addr (st.sub_accounts master));
    sub_meta =
        update st.sub_meta addr
          (some (record { name = name; master = master; created_at = se.now }));
    sub_master = update st.sub_master addr (some master);
  }

  -- `subAccountModify`; the record of a sub-account of the master is there since it was created.
  pub sub_account_modify : String → String → String → SubState N → Option (SubError N) × SubState N
  unfolding trim lower check_name is_sub_account_of name_taken update
  sub_account_modify master sub_user name st =
      let trimmed = trim name in
      let addr = lower sub_user in
      elim (check_name trimmed) [
        | some e ↦ (some e, st)
        | none ↦
            if not (is_sub_account_of master addr st)
            then (some not_owned, st)
            else if name_taken trimmed addr (st.sub_accounts master) st
            then (some name_exists, st)
            else elim (st.sub_meta addr) [
              | none ↦ (none, st)
              | some m ↦ (
                none,
                record st {
                  sub_meta = update st.sub_meta addr (some (record m { name = trimmed }));
                },
              )
            ]
      ]

  -- `subAccountSpotTransfer`, which moves nothing
  pub sub_account_spot_transfer : String → String → SubState N → Option (SubError N) × SubState N
  unfolding lower is_sub_account_of
  sub_account_spot_transfer master sub_user st =
      if is_sub_account_of master (lower sub_user) st then (none, st) else (some not_owned, st)

module _ {N : Type 0} ⦃d : Decimal N⦄ where
  -- The fields of the sub-dexes that have no marker start at zero.
  pub seed_dexes : String → List String → SubState N → SubState N
  unfolding hset bal_field update
  seed_dexes wallet [] st = st
  seed_dexes wallet (dex ∷ dexes) st = seed_dexes wallet dexes (
      if str_eq dex "" || st.seeded (wallet, dex) then st else record st {
        wallets = hset (wallet, bal_field dex) (num 0) st.wallets;
        seeded = update st.seeded (wallet, dex) true;
      })

  -- A wallet that has no hash yet gets one: a sub-account with nothing, a user with the default balance.
  pub open_wallet : SubEnv N → String → SubState N → SubState N
  unfolding hset bal_field sadd
  open_wallet se wallet st =
      let is_sub : Bool = elim (st.sub_master wallet) [
        | none ↦ false
        | some m ↦ not (str_eq m "")
      ] in
      let seed : N = if is_sub then num 0 else se.default_balance in
      let row : LedgerRow N = record { user = wallet; usdc = se.default_balance; ends = none } in
      record st {
        wallets = hset (wallet, spot_field) (num 0) (hset (wallet, bal_field "") seed st.wallets);
        existing = sadd wallet st.existing;
        ledger = if is_sub then st.ledger else row ∷ st.ledger;
      }

  -- `ensureAccount`
  pub ensure_account : SubEnv N → String → SubState N → SubState N
  unfolding open_wallet seed_dexes contains
  ensure_account se wallet st =
      seed_dexes wallet se.dexes
        (if contains wallet st.existing then st else open_wallet se wallet st)

  -- `createSubAccount`
  pub create_sub_account :
      SubEnv N → String → String → SubState N → Option (SubError N) × SubState N
  unfolding trim check_name name_taken register ensure_account
  create_sub_account se master name st =
      let trimmed = trim name in
      let addr = sub_address master trimmed in
      elim (check_name trimmed) [
        | some e ↦ (some e, st)
        | none ↦
            if name_taken trimmed "" (st.sub_accounts master) st
            then (some name_exists, st)
            else (none, ensure_account se addr (register se master trimmed addr st))
      ]

  -- An amount in millionths.
  pub usd_amount : N → N
  usd_amount usd = div usd (num 1_000_000)

  -- `subAccountTransfer`
  pub sub_account_transfer :
      String → String → Bool → N → SubState N → Option (SubError N) × SubState N
  unfolding lower is_sub_account_of usd_amount value_at bal_field
  sub_account_transfer master sub_user is_deposit usd st =
      let addr = lower sub_user in
      let a = usd_amount usd in
      let from = if is_deposit then master else addr in
      let to = if is_deposit then addr else master in
      let have = value_at (from, bal_field "") st.wallets in
      let fixed : N = to_fixed a in
      let sent : LedgerRow N = record { user = from; usdc = neg fixed; ends = some (from, to) } in
      let got : LedgerRow N = record { user = to; usdc = fixed; ends = some (from, to) } in
      if not (is_sub_account_of master addr st)
      then (some not_owned, st)
      else if lte a (num 0)
      then (some (money_error not_positive), st)
      else if lt have a
      then (some (money_error (insufficient have a)), st)
      else (
        none,
        record st {
          wallets = move (from, bal_field "") (to, bal_field "") a st.wallets;
          existing = sadd to (sadd from st.existing);
          ledger = got ∷ sent ∷ st.ledger;
        },
      )

  pub equity_at : String × String → SubState N → N
  equity_at key st = elim (st.vault_equities key) [ none ↦ num 0 | some v ↦ v ]

  -- A balance and an equity are written.
  pub set_vault : String → String → N → N → SubState N → SubState N
  unfolding hset bal_field update sadd
  set_vault user vault balance equity st = record st {
    wallets = hset (user, bal_field "") (to_fixed balance) st.wallets;
    existing = sadd user st.existing;
    vault_equities = update st.vault_equities (user, vault) (some (to_fixed equity));
  }

  -- The metadata of a vault that has none.
  pub found_vault : String → String → SubState N → SubState N
  unfolding update
  found_vault user vault st = elim (st.vault_leader vault) [
    | some leader ↦ st
    | none ↦ record st { vault_leader = update st.vault_leader vault (some user) }
  ]

  -- `vaultTransfer`
  pub vault_transfer : String → String → Bool → N → SubState N → Option (SubError N) × SubState N
  unfolding lower usd_amount value_at equity_at set_vault found_vault bal_field
  vault_transfer user vault_address is_deposit usd st =
      let vault = lower vault_address in
      let a = usd_amount usd in
      let balance = value_at (user, bal_field "") st.wallets in
      let equity = equity_at (user, vault) st in
      if lte a (num 0)
      then (some (money_error not_positive), st)
      else if is_deposit
      then (if lt balance a then (some (money_error (insufficient balance a)), st) else (
        none,
        found_vault user vault (set_vault user vault (sub balance a) (add equity a) st),
      ))
      else if lt equity a
      then (some (money_error (insufficient equity a)), st)
      else (none, set_vault user vault (add balance a) (sub equity a) st)

-- The actions of the exchange route on sub-accounts and vaults.
pub data SubRequest (N : Type 0) : Type 0 where
  create_request : (name : String) → SubRequest N
  modify_request : (sub_user name : String) → SubRequest N
  transfer_request : (sub_user : String) (is_deposit : Bool) (usd : N) → SubRequest N
  spot_request : (sub_user : String) → SubRequest N
  vault_request : (vault_address : String) (is_deposit : Bool) (usd : N) → SubRequest N

module _ {N : Type 0} ⦃d : Decimal N⦄ where
  pub run_sub : SubEnv N → String → SubRequest N → SubState N → Option (SubError N) × SubState N
  unfolding create_sub_account sub_account_modify sub_account_transfer sub_account_spot_transfer
      vault_transfer
  run_sub se user (create_request name) st = create_sub_account se user name st
  run_sub se user (modify_request sub_user name) st = sub_account_modify user sub_user name st
  run_sub se user (transfer_request sub_user is_deposit usd) st =
      sub_account_transfer user sub_user is_deposit usd st
  run_sub se user (spot_request sub_user) st = sub_account_spot_transfer user sub_user st
  run_sub se user (vault_request vault_address is_deposit usd) st =
      vault_transfer user vault_address is_deposit usd st
