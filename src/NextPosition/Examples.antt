-- ===== src/NextPosition/Examples.antt =====
-- A reduce-only order of src/worker/order-matcher.ts on test data: a sell of 9 against a long of 5.
use hy_paper.Prelude.{◌≡◌, refl, true, false}
use hy_paper.Prelude.Int.{ℤ, pos, ◌-ℤ◌}
use hy_paper.Decimal.Integers.{integers, integers-IsOrdered, integers-IsExact}
use hy_paper.Fill.{is_increasing, new_szi}
use hy_paper.Orders.{Order}
use hy_paper.NextPosition.{fill_size}
use hy_paper.NextPosition.Size.{Shrinks, reduce_only-Shrinks}
use hy_paper.Samples.{sample_order}

abbrev order : Order ℤ
order = let o = sample_order false 9 100 in record o { reduce_only = true }

reduce_only-Shrinks_example :
    (is_increasing false (pos 5) ≡ false) × Shrinks (pos 5) (new_szi false (pos 5) (pos 5))
unfolding fill_size ◌-ℤ◌
reduce_only-Shrinks_example =
    reduce_only-Shrinks integers-IsOrdered integers-IsExact order (pos 5) (pos 5) refl refl refl
