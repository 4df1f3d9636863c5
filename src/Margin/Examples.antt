-- ===== src/Margin/Examples.antt =====
-- The liquidation price of src/engine/margin.ts on test data: 2 bought at 100 on a margin of 20.
use hy_paper.Prelude.{◌≡◌, refl, true, false, [], ◌∷◌}
use hy_paper.Prelude.Int.{ℤ, pos, ◌+ℤ◌, ◌-ℤ◌, ◌*ℤ◌, div_ℤ}
use hy_paper.Decimal.{add, mul, abs}
use hy_paper.Decimal.Integers.{integers, integers-IsOrdered, integers-IsExact}
use hy_paper.Fill.{calculate_position_unrealized_pnl}
use hy_paper.MarginTiers.{
  Tier, maintenance_margin_for_notional, maintenance_margin_rate_for_notional,
}
use hy_paper.Prelude.Maps.{nat_keys, string_keys, pair_keys}
use hy_paper.AssetMeta.{get_leverage_setting, scope_for_asset}
use hy_paper.Env.{mid_of}
use hy_paper.NextPosition.{current_szi}
use hy_paper.Store.{Store, balance_of}
use hy_paper.Samples.{sample_env, sample_order, sample_position, sample_store}
use hy_paper.Margin.{
  available_margin, max_affordable_order_size, check_margin_for_order, settle, solve_above,
  solve_below, rate_at, deduction_at,
}
use hy_paper.Margin.Affordable.{check_passes_up_to_affordable_size}
use hy_paper.Margin.LiquidationPrice.{settled_price_meets_margin}

abbrev flat : Tier ℤ
flat = record { lower_bound = pos 0; max_leverage = 4 }

settled_price_meets_margin_example :
    (settle 8 (flat ∷ []) 4 (pos 2) (pos 100) (pos 20) (pos 90) ≡ pos 90)
    × (add (pos 20) (calculate_position_unrealized_pnl (pos 2) (pos 100) (pos 90))
        ≡ maintenance_margin_for_notional (flat ∷ []) (mul (abs (pos 2)) (pos 90)))
unfolding solve_above solve_below rate_at deduction_at maintenance_margin_for_notional
    maintenance_margin_rate_for_notional ◌+ℤ◌ ◌-ℤ◌ ◌*ℤ◌ div_ℤ
settled_price_meets_margin_example =
    settled_price_meets_margin integers-IsOrdered integers-IsExact 8 flat [] 4 (pos 2) (pos 100)
      (pos 20) (pos 90) refl refl refl

abbrev store : Store ℤ
store = sample_store (sample_position (pos 2) (pos 100)) (sample_order true 2 50)

check_passes_up_to_affordable_size_example :
    check_margin_for_order sample_env "ann" 0 true (pos 500) (pos 20) store ≡ false
unfolding available_margin max_affordable_order_size ◌+ℤ◌ ◌-ℤ◌ ◌*ℤ◌ div_ℤ balance_of
    get_leverage_setting mid_of scope_for_asset calculate_position_unrealized_pnl current_szi
check_passes_up_to_affordable_size_example =
    check_passes_up_to_affordable_size integers-IsOrdered integers-IsExact sample_env "ann" 0 true
      (pos 500) (pos 20) store 9 (pos 499) (pos 499) (pos 1_000) refl refl refl refl refl refl refl
