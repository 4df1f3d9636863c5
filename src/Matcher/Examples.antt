-- ===== src/Matcher/Examples.antt =====
-- A fill of src/worker/order-matcher.ts on test data: Ann buys 2 at 110 on top of 2 at 100.
use hy_paper.Prelude.{◌≡◌, refl, true}
use hy_paper.Prelude.Int.{ℤ, pos, ◌+ℤ◌, ◌*ℤ◌, div_ℤ}
use hy_paper.Prelude.Maps.{nat_keys, string_keys, pair_keys}
use hy_paper.Decimal.{sub}
use hy_paper.Decimal.Integers.{integers, integers-IsOrdered, integers-IsExact}
use hy_paper.Fill.{average_entry_px}
use hy_paper.Orders.{Order}
use hy_paper.Store.{Store}
use hy_paper.NextPosition.{current_szi, current_entry_px}
use hy_paper.AssetMeta.{scope_for_asset}
use hy_paper.Matcher.{fee_of, execute_fill_with_size}
use hy_paper.Matcher.Equity.{worth, fill_costs_its_fee}
use hy_paper.Samples.{sample_env, sample_order, sample_position, sample_store}

abbrev order : Order ℤ
order = sample_order true 2 110

abbrev store : Store ℤ
store = sample_store (sample_position (pos 2) (pos 100)) order

fill_costs_its_fee_example :
    worth
      ("ann", scope_for_asset sample_env.market 0)
      0
      (pos 110)
      (execute_fill_with_size sample_env order (pos 110) (pos 2) true store)
    ≡ sub
        (worth ("ann", scope_for_asset sample_env.market 0) 0 (pos 110) store)
        (fee_of sample_env order (pos 110) (pos 2) true)
unfolding average_entry_px current_szi current_entry_px ◌+ℤ◌ ◌*ℤ◌ div_ℤ
fill_costs_its_fee_example =
    fill_costs_its_fee integers-IsOrdered integers-IsExact sample_env order (pos 110) (pos 2) true
      store (λ grows held. refl)
