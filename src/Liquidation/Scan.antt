-- ===== src/Liquidation/Scan.antt =====
-- src/engine/liquidation.ts: the liquidation of one position, and the pass over an account.
pub mod Listed
use Prim.Native.String.{String}
use hy_paper.Prelude.{
  ℕ, Bool, true, false, ◌||◌, Option, none, some, List, [], ◌∷◌, ◌==◌, if◌then◌else◌,
}
use hy_paper.Decimal.{Decimal}
use hy_paper.Store.{balance_of}
use hy_paper.Liquidation.{
  PositionView, Assessment, LiqEnv, LiqState, load_positions, assess_isolated, assess_cross,
}
use hy_paper.Liquidation.Closing.{run_liquidation}

module _ {N : Type 0} ⦃d : Decimal N⦄ where
  pub find_position : ℕ → List (PositionView N) → Option (PositionView N)
  find_position asset [] = none
  find_position asset (p ∷ ps) =
      let rest = find_position asset ps in if p.asset == asset then some p else rest

  pub assess_for : PositionView N → N → List (PositionView N) → Assessment N
  unfolding assess_cross assess_isolated
  assess_for p balance positions =
      if p.is_cross then assess_cross balance positions else assess_isolated p

  pub run_if_due : LiqEnv N → String → String → Assessment N → LiqState N → Bool × LiqState N
  run_if_due le user scope a ls =
      if a.should_liquidate
      then (true, run_liquidation le user scope a a.targets ls)
      else (false, ls)

  -- `executeLiquidation`
  pub execute_liquidation : LiqEnv N → String → ℕ → String → LiqState N → Bool × LiqState N
  unfolding find_position assess_for run_if_due load_positions balance_of
  execute_liquidation le user asset scope ls =
      let positions = load_positions le user scope ls.store in
      elim (find_position asset positions) [
        | none ↦ (false, ls)
        | some p ↦
            run_if_due le user scope (assess_for p (balance_of ls.store (user, scope)) positions) ls
      ]

  pub check_isolated : LiqEnv N → String → String → List (PositionView N) → LiqState N → LiqState N
  unfolding run_if_due assess_isolated
  check_isolated le user scope [] ls = ls
  check_isolated le user scope (p ∷ ps) ls =
      check_isolated le user scope ps
        (if p.is_cross then ls else (run_if_due le user scope (assess_isolated p) ls).1)

  pub has_cross : List (PositionView N) → Bool
  has_cross [] = false
  has_cross (p ∷ ps) = p.is_cross || has_cross ps

  -- `checkAndLiquidateUser`: the isolated positions, and then the cross account, read again.
  pub check_and_liquidate_user : LiqEnv N → String → String → LiqState N → LiqState N
  unfolding check_isolated has_cross run_if_due assess_cross load_positions
  check_and_liquidate_user le user scope ls =
      let isolated = check_isolated le user scope (load_positions le user scope ls.store) ls in
      let positions = load_positions le user scope isolated.store in
      if has_cross positions
      then (run_if_due le user scope
          (assess_cross (balance_of isolated.store (user, scope)) positions) isolated).1
      else isolated
