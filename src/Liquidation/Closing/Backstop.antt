-- ===== src/Liquidation/Closing/Backstop.antt =====
-- The backstop of src/engine/liquidation.ts: what the trader is left with.
use Prim.Native.String.{String}
use hy_paper.Prelude.{
  ℕ, suc, ◌≡◌, refl, sym, ◌∙◌, Bool, List, [], ◌∷◌, inl, inr, if◌then◌else◌, arith,
}
use hy_paper.Prelude.Maps.{nat_keys, string_keys, pair_keys}
use hy_paper.Decimal.{Decimal, num, add, sub, neg, abs, gt}
use hy_paper.Decimal.Order.{IsOrdered, sign-cases}
use hy_paper.Decimal.Exact.{IsExact}
use hy_paper.Decimal.Ring.{ring_eq, var, plus, minus, nought, neg_zero, neg-neg}
use hy_paper.Decimal.Ordered.{abs-pos, abs-neg}
use hy_paper.Fill.{calculate_position_unrealized_pnl}
use hy_paper.Store.{balance_of}
use hy_paper.Liquidation.{backstop, PositionView, Assessment, LiqEnv, LiqState}
use hy_paper.Liquidation.Closing.{
  plan_close, plan_closes, slice_of, close_abs_of, liquidation_fill_px, liquidation_fee,
  transferred_of, run_liquidation,
}
use hy_paper.Liquidation.Closing.Balance.{paid, run_liquidation-balance}

module _ {N : Type 0} ⦃d : Decimal N⦄ where
  -- The profit of a view is that of its position at its price.
  abbrev pub IsView : PositionView N → Type 0
  IsView p = p.pnl ≡ calculate_position_unrealized_pnl p.szi p.entry_px p.px

  abbrev pub AreViews : List (PositionView N) → Type 0
  AreViews [] = Unit
  AreViews (p ∷ ps) = IsView p × AreViews ps

  unfoldable pub pnls : List (PositionView N) → N
  pnls [] = num 0
  pnls (p ∷ ps) = add p.pnl (pnls ps)

  -- The margin dedicated to isolated positions.
  unfoldable pub isolated_margins : List (PositionView N) → N
  isolated_margins [] = num 0
  isolated_margins (p ∷ ps) =
      if p.is_cross then isolated_margins ps else add p.isolated_margin (isolated_margins ps)

  module _ (order : IsOrdered N) (exact : IsExact N) where
    open order use {lte_refl, abs_lem}
    open exact use {add_zero}

    signed_abs : (s : N) → (if gt s (num 0) then abs s else neg (abs s)) ≡ s
    signed_abs s = elim (sign-cases order s) [
      | inl z ↦ rw (z, lte_refl (num 0), abs_lem (num 0), lte_refl (num 0)) (neg_zero exact)
      | inr (inl (up, down)) ↦ rw up (abs-pos order exact s (ground arith))
      | inr (inr (up, down)) ↦ rw (up, abs-neg order exact s (ground arith)) (neg-neg exact s)
    ]

    -- A full close by the backstop realises the profit of the view, without a fee.
    plan_close-backstop :
        (le : LiqEnv N) (p : PositionView N) (oid tid : ℕ)
        → IsView p
        → let c = plan_close le p (abs p.szi) backstop oid tid in
          (c.fill.closed_pnl ≡ p.pnl) × (c.fill.fee ≡ num 0)
    unfolding plan_close liquidation_fill_px liquidation_fee
    plan_close-backstop le p oid tid h = (rw (lte_refl (abs p.szi), signed_abs p.szi, h) refl, refl)

    paid-backstop :
        (le : LiqEnv N) (in_cooldown : Bool) (ps : List (PositionView N)) (oid tid : ℕ) (b : N)
        → AreViews ps
        → paid b (plan_closes le backstop in_cooldown ps oid tid).0 ≡ add b (pnls ps)
    unfolding paid plan_closes pnls slice_of close_abs_of
    paid-backstop le cd [] oid tid b h = sym (add_zero b)
    paid-backstop le cd (p ∷ ps) oid tid b (h, hs) =
        let (realised, free) = plan_close-backstop le p oid tid h in
        rw (realised, free)
          (paid-backstop le cd ps (suc oid) (suc tid) (sub (add b p.pnl) (num 0)) hs
            ∙ ring_eq exact (b ∷ p.pnl ∷ pnls ps ∷ [])
                (plus (minus (plus (var 0) (var 1)) nought) (var 2))
                (plus (var 0) (plus (var 1) (var 2))) refl)

    -- After a backstop the account has what its targets realise, less the equity that it gives up.
    pub backstop-balance :
        (le : LiqEnv N) (user scope : String) (a : Assessment N) (first : PositionView N)
        (targets : List (PositionView N)) (ls : LiqState N) (k : String × String)
        → a.method ≡ backstop
        → AreViews (first ∷ targets)
        → balance_of (run_liquidation le user scope a (first ∷ targets) ls).store k ≡ (
            if pair_keys.beq (user, scope) k
            then sub (add (balance_of ls.store (user, scope)) (pnls (first ∷ targets))) a.equity
            else balance_of ls.store k)
    unfolding transferred_of
    backstop-balance le user scope a first targets ls k m views =
        run_liquidation-balance order exact user scope le a first targets ls k
        ∙ rw (m, transferred_of, paid-backstop le _ (first ∷ targets) _ _ _ views) refl
