-- ===== src/Liquidation/Holders/Listed.antt =====
-- The sets of positions over the pass of src/engine/liquidation.ts over all accounts.
use Prim.Native.String.{String}
use hy_paper.Prelude.{List, [], ◌∷◌, inl, inr, Bool-cases}
use hy_paper.Prelude.Maps.{string_keys, pair_keys, srem}
use hy_paper.Decimal.{Decimal}
use hy_paper.AssetMeta.{Market}
use hy_paper.Store.{Store}
use hy_paper.Liquidation.{LiqEnv, LiqState}
use hy_paper.Liquidation.Closing.Listed.{IsListed}
use hy_paper.Liquidation.Scan.{check_and_liquidate_user}
use hy_paper.Liquidation.Scan.Listed.{check_and_liquidate_user-IsListed}
use hy_paper.Liquidation.Holders.{
  holds_nothing, holders_of, position_holders_of, check_each, check_and_liquidate_all,
}

module _ {N : Type 0} ⦃d : Decimal N⦄ where
  holders_of-IsListed :
      (market : Market) (accounts : List (String × String)) (s : Store N)
      → IsListed market s
      → IsListed market (holders_of accounts s).1
  unfolding holders_of
  holders_of-IsListed market [] s h = h
  holders_of-IsListed market (account ∷ accounts) s h =
      elim (Bool-cases (holds_nothing account s)) [
        | inl empty ↦
            simp (empty, holders_of)
              (holders_of-IsListed market accounts
                (record s { position_holders = srem account s.position_holders }) h)
        | inr some_ ↦ simp (some_, holders_of) (holders_of-IsListed market accounts s h)
      ]

  module _ (le : LiqEnv N) where
    check_each-IsListed :
        (accounts : List (String × String)) (ls : LiqState N)
        → IsListed le.env.market ls.store
        → IsListed le.env.market (check_each le accounts ls).store
    unfolding check_each
    check_each-IsListed [] ls h = h
    check_each-IsListed (account ∷ accounts) ls h =
        check_each-IsListed accounts (check_and_liquidate_user le account.0 account.1 ls)
          (check_and_liquidate_user-IsListed le account.0 account.1 ls h)

    -- A pass over all accounts, whoever is liquidated, wholly or in part, keeps every set of positions in step
    -- with the positions: it lists exactly the positions on the assets of its dex.
    pub liquidations_keep_sets-IsListed :
        (ls : LiqState N)
        → IsListed le.env.market ls.store
        → IsListed le.env.market (check_and_liquidate_all le ls).store
    unfolding check_and_liquidate_all position_holders_of
    liquidations_keep_sets-IsListed ls h =
        let holders = holders_of ls.store.position_holders ls.store in
        check_each-IsListed holders.0 (record ls { store = holders.1 })
          (holders_of-IsListed le.env.market ls.store.position_holders ls.store h)
