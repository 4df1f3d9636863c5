-- ===== src/Trailing/Examples.antt =====
-- Trailing stops of src/engine/trailing-math.ts on test data: a sell stop 5 below the best mark.
use hy_paper.Prelude.{◌≡◌, refl, false, some, List, [], ◌∷◌}
use hy_paper.Prelude.Int.{ℤ, pos}
use hy_paper.Decimal.Integers.{integers, integers-IsOrdered}
use hy_paper.Trailing.{TrailingParams, px, compute_trigger, evaluate_all}
use hy_paper.Trailing.Watermark.{active, Favours}
use hy_paper.Trailing.Ratchet.{InRange, trigger_ratchets}

abbrev stop : TrailingParams ℤ
stop = record {
  is_buy = false;
  kind = px;
  amount = pos 5;
  activation_px = some (pos 100);
  sz_decimals = 2;
}

abbrev marks : List ℤ
marks = pos 103 ∷ pos 107 ∷ pos 104 ∷ []

stop-InRange : InRange stop
stop-InRange = record { nonneg = refl; at_most = λ h. refl }

trigger_ratchets_example :
    (b : ℤ) × (evaluate_all stop (active (pos 101)) marks ≡ some (active b))
    × Favours false (compute_trigger stop (pos 101)) (compute_trigger stop b)
trigger_ratchets_example = trigger_ratchets integers-IsOrdered stop (pos 101) marks stop-InRange
