-- ===== src/Matcher/Equity.antt =====
-- What an account is worth over a fill of src/worker/order-matcher.ts.
use Prim.Native.String.{String}
use hy_paper.Prelude.{
  ◌≡◌, refl, ◌∙◌, ap, ℕ, Bool, true, false, Option, [], ◌∷◌, inl, inr, Bool-cases,
}
use hy_paper.Prelude.Maps.{nat_keys, string_keys, pair_keys, beq_refl}
use hy_paper.Decimal.{Decimal, num, add, sub, is_zero}
use hy_paper.Decimal.Order.{IsOrdered}
use hy_paper.Decimal.Exact.{IsExact}
use hy_paper.Decimal.Ring.{ring_eq, var, plus, minus}
use hy_paper.Fill.{calculate_position_unrealized_pnl, new_szi, is_increasing, new_entry_px}
use hy_paper.Fill.Equity.{HasAverage, fill-KeepsEquity}
use hy_paper.AssetMeta.{scope_for_asset}
use hy_paper.Orders.{Order, Position}
use hy_paper.Store.{Store, balance_of}
use hy_paper.Env.{Env}
use hy_paper.NextPosition.{current_szi, current_entry_px, next_position}
use hy_paper.Matcher.{fill_pnl, fee_of, execute_fill_with_size}
use hy_paper.Matcher.Settlement.{position_after, size_after, execute-positions}
use hy_paper.Matcher.Payment.{fill_pays_account}

module _ {N : Type 0} ⦃d : Decimal N⦄ where
  -- The profit of a position that may be missing, at a price.
  abbrev pub position_pnl : Option (Position N) → N → N
  position_pnl p px = calculate_position_unrealized_pnl (current_szi p) (current_entry_px p) px

  -- What an account is worth at a price of one asset, but for its other positions.
  abbrev pub worth : String × String → ℕ → N → Store N → N
  worth account asset px s =
      add (balance_of s account) (position_pnl (s.positions (account.0, asset)) px)

  module _ (order : IsOrdered N) (exact : IsExact N) where
    open order use {lte_refl}

    position_after-pnl :
        (env : Env N) (o : Order N) (sz px : N) (s : Store N)
        → let prev = s.positions (o.user_id, o.asset) in
          position_pnl (position_after env o sz px s) px
          ≡ calculate_position_unrealized_pnl
              (new_szi o.is_buy sz (current_szi prev))
              (new_entry_px o.is_buy sz px (current_szi prev) (current_entry_px prev))
              px
    unfolding current_szi current_entry_px next_position calculate_position_unrealized_pnl
    position_after-pnl env o sz px s = elim (Bool-cases (is_zero (size_after env o sz px s))) [
      | inl z ↦ rw (z, lte_refl (num 0)) refl
      | inr z ↦ rw (z, z) refl
    ]

    -- (b + r - f) + a = (b + w) - f where r + a = w
    paid : (b r f a w : N) → add r a ≡ w → add (sub (add b r) f) a ≡ sub (add b w) f
    paid b r f a w e =
        ring_eq exact (b ∷ r ∷ f ∷ a ∷ []) (plus (minus (plus (var 0) (var 1)) (var 2)) (var 3))
          (minus (plus (var 0) (plus (var 1) (var 3))) (var 2)) refl
        ∙ rw e

    -- A fill takes its fee from what the account is worth at the fill price, and nothing else, whether
    -- it opens, grows, reduces, closes or flips the position. Where it grows a position, the average entry
    -- price is supposed to be a decimal.
    pub fill_costs_its_fee :
        (env : Env N) (o : Order N) (px sz : N) (is_taker : Bool) (s : Store N)
        → let prev = s.positions (o.user_id, o.asset) in
          let account : String × String = (o.user_id, scope_for_asset env.market o.asset) in
          (is_increasing o.is_buy (current_szi prev) ≡ true
            → is_zero (current_szi prev) ≡ false
            → HasAverage sz px (current_szi prev) (current_entry_px prev))
          → worth account o.asset px (execute_fill_with_size env o px sz is_taker s)
            ≡ sub (worth account o.asset px s) (fee_of env o px sz is_taker)
    unfolding fill_pnl
    fill_costs_its_fee env o px sz is_taker s h =
        let prev = s.positions (o.user_id, o.asset) in
        let account : String × String = (o.user_id, scope_for_asset env.market o.asset) in
        let szi = current_szi prev in
        let entry = current_entry_px prev in
        let fee = fee_of env o px sz is_taker in
        let realised = fill_pnl o px sz s in
        let after = position_pnl (position_after env o sz px s) px in
        rw
          (
            fill_pays_account order exact env o px sz is_taker s account,
            execute-positions env o px sz is_taker s o.user_id o.asset,
            beq_refl account,
            beq_refl {K = String × ℕ} (o.user_id, o.asset),
          )
          (paid (balance_of s account) realised fee after (position_pnl prev px) (
            ap (add realised) (position_after-pnl env o sz px s)
            ∙ fill-KeepsEquity order exact o.is_buy sz px szi entry h))
