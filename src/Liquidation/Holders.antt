-- ===== src/Liquidation/Holders.antt =====
-- src/engine/liquidation.ts: the pass over every account that holds a position, and the index of them.
pub mod Listed
mod Examples
use Prim.Native.String.{String}
use hy_paper.Prelude.{ℕ, suc, Bool, true, false, List, [], ◌∷◌, if◌then◌else◌}
use hy_paper.Prelude.Maps.{string_keys, pair_keys, contains, sadd, srem}
use hy_paper.Decimal.{Decimal}
use hy_paper.AssetMeta.{sub_dex_names}
use hy_paper.Store.{Store}
use hy_paper.Liquidation.{LiqEnv, LiqState, is_empty}
use hy_paper.Liquidation.Scan.{check_and_liquidate_user}

module _ {N : Type 0} where
  -- SCARD of the positions of an account is zero.
  pub holds_nothing : String × String → Store N → Bool
  unfolding is_empty
  holds_nothing account s = is_empty (s.position_assets account)

  -- The loop of `positionHolders`: an account without positions leaves the index.
  pub holders_of : List (String × String) → Store N → List (String × String) × Store N
  unfolding holds_nothing srem
  holders_of [] s = ([], s)
  holders_of (account ∷ accounts) s =
      if holds_nothing account s
      then holders_of accounts (record s { position_holders = srem account s.position_holders })
      else let rest = holders_of accounts s in (account ∷ rest.0, rest.1)

  -- `positionHolders`
  pub position_holders_of : Store N → List (String × String) × Store N
  unfolding holders_of
  position_holders_of s = holders_of s.position_holders s

  -- The scopes of one user, with the count of the accounts that are new in the index.
  pub backfill_scopes : String → List String → ℕ × Store N → ℕ × Store N
  unfolding holds_nothing contains sadd
  backfill_scopes user [] added = added
  backfill_scopes user (scope ∷ scopes) (n, s) =
      if holds_nothing (user, scope) s
      then backfill_scopes user scopes (n, s)
      else backfill_scopes user scopes (
        if contains (user, scope) s.position_holders then n else suc n,
        record s { position_holders = sadd (user, scope) s.position_holders },
      )

  backfill_users : List String → List String → ℕ × Store N → ℕ × Store N
  unfolding backfill_scopes
  backfill_users scopes [] added = added
  backfill_users scopes (user ∷ users) added =
      backfill_users scopes users (backfill_scopes user scopes added)

  -- `backfillPositionHolders`
  pub backfill_position_holders : LiqEnv N → Store N → ℕ × Store N
  unfolding backfill_users
  backfill_position_holders le s =
      backfill_users ("" ∷ sub_dex_names le.env.market) s.users_active (0, s)

module _ {N : Type 0} ⦃d : Decimal N⦄ where
  pub check_each : LiqEnv N → List (String × String) → LiqState N → LiqState N
  check_each le [] ls = ls
  check_each le (account ∷ accounts) ls =
      check_each le accounts (check_and_liquidate_user le account.0 account.1 ls)

  -- `checkAndLiquidateAll`
  pub check_and_liquidate_all : LiqEnv N → LiqState N → LiqState N
  unfolding position_holders_of check_each
  check_and_liquidate_all le ls =
      let holders = position_holders_of ls.store in
      check_each le holders.0 (record ls { store = holders.1 })
