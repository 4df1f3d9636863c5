-- ===== src/Margin.antt =====
-- src/engine/margin.ts: account value, free margin, and the price of a liquidation.
pub mod LiquidationPrice
pub mod Affordable
mod Examples
use Prim.Native.String.{String}
use hy_paper.Prelude.{
  ℕ, zero, suc, ◌*◌, Bool, true, false, not, ◌&&◌, ◌||◌, Option, none, some, List, [], ◌∷◌,
  if◌then◌else◌,
}
use hy_paper.Decimal.{Decimal, num, add, sub, mul, div, abs, gt, lt, lte, gte, is_zero}
use hy_paper.Fill.{calculate_position_unrealized_pnl}
use hy_paper.AssetMeta.{get_leverage_setting, scope_for_asset}
use hy_paper.MarginTiers.{
  Tier, maintenance_margin_for_notional, maintenance_margin_rate_for_notional,
}
use hy_paper.Orders.{Position}
use hy_paper.Store.{Store, balance_of}
use hy_paper.Env.{Env, mid_of}
use hy_paper.NextPosition.{current_szi}
use hy_paper.Liquidation.{isolated_margin_of}

module _ {N : Type 0} ⦃d : Decimal N⦄ where
  -- What a position adds to a total, priced at the mid: nothing, if it is missing, empty or unpriced.
  unfoldable pub at_mid : Env N → (Position N → N → N) → Option (Position N) → N → N
  at_mid env amount none total = total
  at_mid env amount (some pos) total =
      if is_zero pos.szi
      then total
      else elim (mid_of pos.coin env.mids) [ none ↦ total | some mid ↦ add total (amount pos mid) ]

  -- The loop over the positions of an account.
  unfoldable pub total_at_mid : Env N → String → (ℕ → Position N → N → N) → List ℕ → Store N → N → N
  unfolding at_mid
  total_at_mid env user amount [] s total = total
  total_at_mid env user amount (asset ∷ assets) s total =
      total_at_mid env user amount assets s
        (at_mid env (amount asset) (s.positions (user, asset)) total)

  unfoldable pub calculate_total_unrealized_pnl : Env N → String → String → Store N → N
  unfolding total_at_mid
  calculate_total_unrealized_pnl env user scope s =
      total_at_mid env user
        (λ asset pos mid. calculate_position_unrealized_pnl pos.szi pos.entry_px mid)
        (s.position_assets (user, scope)) s (num 0)

  unfoldable pub calculate_account_value : Env N → String → String → Store N → N
  unfolding calculate_total_unrealized_pnl balance_of
  calculate_account_value env user scope s =
      add (balance_of s (user, scope)) (calculate_total_unrealized_pnl env user scope s)

  unfoldable pub calculate_position_margin_used : Env N → String → ℕ → Position N → N → N
  calculate_position_margin_used env user asset pos mid =
      let setting = get_leverage_setting env.market user asset in
      if is_zero pos.szi
      then num 0
      else if setting.is_cross
      then div (mul (abs pos.szi) mid) (num setting.leverage)
      else isolated_margin_of pos setting.leverage

  unfoldable pub calculate_total_margin_used : Env N → String → String → Store N → N
  unfolding total_at_mid calculate_position_margin_used
  calculate_total_margin_used env user scope s =
      total_at_mid env user (calculate_position_margin_used env user)
        (s.position_assets (user, scope)) s (num 0)

  -- The margin of the asset's dex that is not in use.
  unfoldable pub available_margin : Env N → String → ℕ → Store N → N
  unfolding calculate_account_value calculate_total_margin_used
  available_margin env user asset s =
      let scope = scope_for_asset env.market asset in
      sub (calculate_account_value env user scope s) (calculate_total_margin_used env user scope s)

  unfoldable pub is_reducing : Bool → N → Bool
  is_reducing is_buy szi =
      let is_long = gt szi (num 0) in
      not (is_zero szi) && ((is_long && not is_buy) || (not is_long && is_buy))

  pub check_margin_for_order : Env N → String → ℕ → Bool → N → N → Store N → Bool
  unfolding available_margin is_reducing
  check_margin_for_order env user asset is_buy sz px s =
      if is_reducing is_buy (current_szi (s.positions (user, asset)))
      then true
      else not (
          lt (available_margin env user asset s)
            (div (mul sz px) (num (get_leverage_setting env.market user asset).leverage)))

  -- None, where the order is not constrained.
  unfoldable pub max_affordable_order_size : Env N → String → ℕ → Bool → N → Store N → Option N
  unfolding available_margin is_reducing
  max_affordable_order_size env user asset is_buy px s =
      let available = available_margin env user asset s in
      if is_reducing is_buy (current_szi (s.positions (user, asset)))
      then none
      else if gt available (num 0)
      then some (div (mul available (num (get_leverage_setting env.market user asset).leverage)) px)
      else some (num 0)

  -- The fallback rate of a position without tiers.
  pub leverage_rate : ℕ → N
  leverage_rate leverage = div (num 1) (num (leverage * 2))

  pub rate_at : List (Tier N) → ℕ → N → N
  unfolding leverage_rate
  rate_at [] leverage notional = leverage_rate leverage
  rate_at (t ∷ tiers) leverage notional = maintenance_margin_rate_for_notional t tiers notional

  pub deduction_at : List (Tier N) → ℕ → N → N
  unfolding rate_at
  deduction_at [] leverage notional = num 0
  deduction_at (t ∷ tiers) leverage notional =
      sub (mul notional (rate_at (t ∷ tiers) leverage notional))
        (maintenance_margin_for_notional (t ∷ tiers) notional)

  -- The two sides of the division in `solve`.
  pub solve_above : Bool → N → N → N → N
  solve_above is_long position_notional margin deduction =
      if is_long
      then sub (sub position_notional margin) deduction
      else add (add position_notional margin) deduction

  pub solve_below : Bool → N → N → N
  solve_below is_long size rate =
      if is_long then mul size (sub (num 1) rate) else mul size (add (num 1) rate)

  -- `solve`: the price at which an isolated position meets the margin of the tier of a notional size.
  pub solve : List (Tier N) → ℕ → N → N → N → N → N
  unfolding solve_above solve_below rate_at deduction_at
  solve tiers leverage szi entry_px margin notional =
      let is_long = gt szi (num 0) in
      div
        (solve_above is_long (mul (abs szi) entry_px) margin (deduction_at tiers leverage notional))
        (solve_below is_long (abs szi) (rate_at tiers leverage notional))

  -- The loop that picks the tier again, at most as often as the fuel says.
  pub settle : ℕ → List (Tier N) → ℕ → N → N → N → N → N
  unfolding solve
  settle zero tiers leverage szi entry_px margin px = px
  settle (suc i) [] leverage szi entry_px margin px = px
  settle (suc i) (t ∷ tiers) leverage szi entry_px margin px =
      let next = solve (t ∷ tiers) leverage szi entry_px margin (mul (abs szi) px) in
      let rest = settle i (t ∷ tiers) leverage szi entry_px margin next in
      if gt px (num 0) then (if lte next px && lte px next then px else rest) else px

  pub isolated_liquidation_price : List (Tier N) → ℕ → N → N → N → N
  unfolding settle solve
  isolated_liquidation_price tiers leverage szi entry_px margin =
      let px =
        settle 8 tiers leverage szi entry_px margin
          (solve tiers leverage szi entry_px margin (mul (abs szi) entry_px)) in
      if gt szi (num 0) && not (gt px (num 0)) then num 0 else px

  pub cross_maintenance : List (Tier N) → ℕ → N → N
  unfolding leverage_rate
  cross_maintenance [] leverage notional = mul notional (leverage_rate leverage)
  cross_maintenance (t ∷ tiers) leverage notional =
      maintenance_margin_for_notional (t ∷ tiers) notional

  pub cross_liquidation_price : List (Tier N) → ℕ → N → N → N → Option N
  unfolding cross_maintenance
  cross_liquidation_price tiers leverage szi entry_px account_value =
      let notional = mul (abs szi) entry_px in
      let cushion = sub account_value (cross_maintenance tiers leverage notional) in
      if gte cushion notional
      then none
      else if lte cushion (num 0)
      then some (if gt szi (num 0) then num 0 else entry_px)
      else let offset = div cushion (abs szi) in
        some (if gt szi (num 0) then sub entry_px offset else add entry_px offset)

  pub margin_or_default : Option N → ℕ → N → N
  margin_or_default none leverage notional = div notional (num leverage)
  margin_or_default (some margin) leverage notional = margin

  pub calculate_liquidation_price : N → N → N → ℕ → Bool → Option N → List (Tier N) → Option N
  unfolding isolated_liquidation_price cross_liquidation_price margin_or_default
  calculate_liquidation_price szi entry_px account_value leverage is_cross isolated_margin tiers =
      if is_zero szi
      then none
      else if is_cross
      then cross_liquidation_price tiers leverage szi entry_px account_value
      else some (
          isolated_liquidation_price tiers leverage szi entry_px
            (margin_or_default isolated_margin leverage (mul (abs szi) entry_px)))
