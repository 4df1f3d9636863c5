-- ===== src/Intake/Place/Leverage.antt =====
-- leverageErrorForOpen of src/engine/order.ts, where the setting is within the maximum.
use Prim.Native.String.{String}
use hy_paper.Prelude.{ℕ, ◌≤◌, ◌≡◌, Bool, false, some, arith, ltb}
use hy_paper.Decimal.{Decimal}
use hy_paper.AssetMeta.{cached_max_leverage, get_leverage_setting}
use hy_paper.Store.{Store}
use hy_paper.Intake.{IntakeEnv}
use hy_paper.Intake.Place.{leverage_blocks}

module _ {N : Type 0} ⦃d : Decimal N⦄ where
  pub allowed_open :
      (ie : IntakeEnv N) (user : String) (asset : ℕ) (is_buy : Bool) (s : Store N) (max : ℕ)
      → cached_max_leverage ie.env.market asset ≡ some max
      → (get_leverage_setting ie.env.market user asset).leverage ≤ max
      → leverage_blocks ie user asset is_buy s ≡ false
  unfolding leverage_blocks
  allowed_open ie user asset is_buy s max known within =
      let fine : ltb max (get_leverage_setting ie.env.market user asset).leverage ≡ false =
        ground (arith, within) in
      rw (leverage_blocks, known, fine) (ground arith)
