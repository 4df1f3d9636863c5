-- ===== src/Slippage/Examples.antt =====
-- The book walk of src/utils/slippage.ts on test data: 3 at 111 and 10 at 112.
use hy_paper.Prelude.{refl, true, some, List, [], ◌∷◌}
use hy_paper.Prelude.Int.{ℤ, pos}
use hy_paper.Decimal.Integers.{integers, integers-IsOrdered, integers-IsExact}
use hy_paper.Slippage.{Level, compute_vwap}
use hy_paper.Slippage.Bounds.{Between, compute_vwap-Between}
use hy_paper.Samples.{level}

abbrev levels : List (Level ℤ)
levels = level 111 3 ∷ level 112 10 ∷ []

compute_vwap-Between_example :
    Between
      (pos 110)
      (pos 112)
      (compute_vwap (some levels) (pos 5) true (some (pos 111)) (pos 110)).fill_px
compute_vwap-Between_example =
    compute_vwap-Between (pos 110) (pos 112) integers-IsOrdered integers-IsExact levels (pos 5)
      (pos 110) true (some (pos 111)) (refl, (refl, tt)) ((refl, refl), ((refl, refl), tt)) refl
      (refl, refl)
