-- ===== src/Liquidation/Outcome.antt =====
-- What a backstop of src/engine/liquidation.ts leaves of an account that it has loaded.
use Prim.Native.String.{String}
use hy_paper.Prelude.{
  ℕ, ◌≡◌, refl, sym, ◌∙◌, none, some, [], ◌∷◌, inl, inr, Bool-cases, Option-cases, if◌then◌else◌,
}
use hy_paper.Prelude.Maps.{nat_keys, string_keys, pair_keys}
use hy_paper.Decimal.{Decimal, num, add, sub, is_zero}
use hy_paper.Decimal.Order.{IsOrdered}
use hy_paper.Decimal.Exact.{IsExact}
use hy_paper.Decimal.Ring.{ring_eq, var, plus, minus, nought}
use hy_paper.Store.{Store, balance_of}
use hy_paper.Liquidation.{
  backstop, PositionView, LiqEnv, LiqState, assess, assess_isolated, load_position, view_of,
  price_for,
}
use hy_paper.Liquidation.Closing.{run_liquidation}
use hy_paper.Liquidation.Closing.Backstop.{IsView, pnls, backstop-balance}

module _ {N : Type 0} ⦃d : Decimal N⦄ where
  load_position-IsView :
      (le : LiqEnv N) (user scope : String) (asset : ℕ) (s : Store N) (p : PositionView N)
      → load_position le user scope asset s ≡ some p
      → IsView p
  unfolding load_position view_of
  load_position-IsView le user scope asset s p h = elim (Option-cases (s.positions (user, asset))) [
    | inl e ↦ let no : none ≡ some p = rw (e, load_position) at h in cc
    | inr (raw, e) ↦ elim (Bool-cases (is_zero raw.szi)) [
      | inl z ↦ let no : none ≡ some p = rw (e, load_position, z) at h in cc
      | inr z ↦ elim (Option-cases (price_for le.env raw.coin)) [
        | inl q ↦ let no : none ≡ some p = rw (e, load_position, z, q) at h in cc
        | inr (px, q) ↦
            let seen : some (view_of le user scope asset raw px) ≡ some p =
              rw (e, load_position, z, q) at h in
            let same : view_of le user scope asset raw px ≡ p = cc in rw (sym same) refl
      ]
    ]
  ]

  module _ (order : IsOrdered N) (exact : IsExact N) where
    -- A backstop of an isolated position that is loaded costs its account the margin dedicated to the
    -- position, whatever the loss, and no other account changes.
    pub isolated_backstop_costs_margin :
        (le : LiqEnv N) (user scope : String) (asset : ℕ) (ls : LiqState N) (p : PositionView N)
        (k : String × String)
        → load_position le user scope asset ls.store ≡ some p
        → (assess_isolated p).method ≡ backstop
        → balance_of (run_liquidation le user scope (assess_isolated p) (p ∷ []) ls).store k ≡ (
            if pair_keys.beq (user, scope) k
            then sub (balance_of ls.store (user, scope)) p.isolated_margin
            else balance_of ls.store k)
    unfolding assess_isolated assess pnls
    isolated_backstop_costs_margin le user scope asset ls p k loaded m =
        let seen = load_position-IsView le user scope asset ls.store p loaded in
        let b = balance_of ls.store (user, scope) in
        let left : sub (add b (add p.pnl (num 0))) (add p.isolated_margin p.pnl)
            ≡ sub b p.isolated_margin =
          ring_eq exact (b ∷ p.pnl ∷ p.isolated_margin ∷ [])
            (minus (plus (var 0) (plus (var 1) nought)) (plus (var 2) (var 1)))
            (minus (var 0) (var 2)) refl in
        backstop-balance order exact le user scope (assess_isolated p) p [] ls k m (seen, tt)
        ∙ rw left refl
