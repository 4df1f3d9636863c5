-- ===== src/Liquidation/Scan/Listed.antt =====
-- The sets of positions over the pass of src/engine/liquidation.ts over one account.
use Prim.Native.String.{String}
use hy_paper.Prelude.{
  ℕ, ◌≡◌, ap, ◌∙◌, true, some, List, [], ◌∷◌, inl, inr, Bool-cases, Option-cases, arith,
}
use hy_paper.Prelude.Maps.{nat_keys, string_keys, pair_keys, contains, contains_head}
use hy_paper.Decimal.{Decimal}
use hy_paper.AssetMeta.{Market, scope_for_asset}
use hy_paper.Store.{Store, balance_of}
use hy_paper.Liquidation.{
  PositionView, Assessment, LiqEnv, LiqState, assess, assess_isolated, assess_cross, cross_only,
  load_positions, load_each, load_position, view_of,
}
use hy_paper.Liquidation.Closing.Listed.{IsListed, AllOwn, run_liquidation-IsListed}
use hy_paper.Liquidation.Scan.{run_if_due, check_isolated, has_cross, check_and_liquidate_user}

module _ {N : Type 0} ⦃d : Decimal N⦄ where
  cross_only-AllOwn :
      (market : Market) (scope : String) (ps : List (PositionView N))
      → AllOwn market scope ps
      → AllOwn market scope (cross_only ps)
  unfolding cross_only
  cross_only-AllOwn market scope [] h = tt
  cross_only-AllOwn market scope (p ∷ ps) (own, rest) = elim (Bool-cases p.is_cross) [
    | inl e ↦ rw e (own, cross_only-AllOwn market scope ps rest)
    | inr e ↦ rw e (cross_only-AllOwn market scope ps rest)
  ]

  module _ (le : LiqEnv N) (user scope : String) where
    abbrev Keeps : Store N → Type 0
    Keeps s = IsListed le.env.market s

    loaded_asset :
        (asset : ℕ) (s : Store N) (p : PositionView N)
        → load_position le user scope asset s ≡ some p
        → p.asset ≡ asset
    unfolding load_position view_of
    loaded_asset asset s p h = ground (arith, h)

    load_each-AllOwn :
        (assets : List ℕ) (s : Store N)
        → ((a : ℕ) → contains a assets ≡ true → scope_for_asset le.env.market a ≡ scope)
        → AllOwn le.env.market scope (load_each le user scope assets s)
    unfolding load_each contains
    load_each-AllOwn [] s h = tt
    load_each-AllOwn (asset ∷ assets) s h =
        let rest = load_each-AllOwn assets s (λ a k. h a (ground (arith, k))) in
        elim (Option-cases (load_position le user scope asset s)) [
          | inl e ↦ rw (e, load_each) rest
          | inr (p, e) ↦
              rw (e, load_each)
                (
                  ap (scope_for_asset le.env.market) (loaded_asset asset s p e)
                      ∙ h asset (contains_head asset assets),
                  rest,
                )
        ]

    load_positions-AllOwn :
        (s : Store N) → Keeps s → AllOwn le.env.market scope (load_positions le user scope s)
    unfolding load_positions
    load_positions-AllOwn s h = load_each-AllOwn (s.position_assets (user, scope)) s (λ a k.
        (string_keys.beq_iff (scope_for_asset le.env.market a) scope).0
          (ground (arith, k, h user scope a)))

    run_if_due-IsListed :
        (a : Assessment N) (ls : LiqState N)
        → AllOwn le.env.market scope a.targets
        → Keeps ls.store
        → Keeps (run_if_due le user scope a ls).1.store
    unfolding run_if_due
    run_if_due-IsListed a ls own h = elim (Bool-cases a.should_liquidate) [
      | inl due ↦
          simp (due, run_if_due)
            (run_liquidation-IsListed le.env.market user scope le a a.targets ls own h)
      | inr fine ↦ simp (fine, run_if_due) h
    ]

    isolated-AllOwn :
        (p : PositionView N)
        → scope_for_asset le.env.market p.asset ≡ scope
        → AllOwn le.env.market scope (assess_isolated p).targets
    unfolding assess_isolated assess
    isolated-AllOwn p own = (own, tt)

    check_isolated-IsListed :
        (ps : List (PositionView N)) (ls : LiqState N)
        → AllOwn le.env.market scope ps
        → Keeps ls.store
        → Keeps (check_isolated le user scope ps ls).store
    unfolding check_isolated
    check_isolated-IsListed [] ls own h = h
    check_isolated-IsListed (p ∷ ps) ls (own, rest) h = elim (Bool-cases p.is_cross) [
      | inl e ↦ simp (e, check_isolated) (check_isolated-IsListed ps ls rest h)
      | inr e ↦
          let a = assess_isolated p in
          simp (e, check_isolated)
            (check_isolated-IsListed ps (run_if_due le user scope a ls).1 rest
              (run_if_due-IsListed a ls (isolated-AllOwn p own) h))
    ]

    -- The pass over one account.
    pub check_and_liquidate_user-IsListed :
        (ls : LiqState N) → Keeps ls.store → Keeps (check_and_liquidate_user le user scope ls).store
    unfolding check_and_liquidate_user assess_cross assess
    check_and_liquidate_user-IsListed ls h =
        let isolated = check_isolated le user scope (load_positions le user scope ls.store) ls in
        let kept =
          check_isolated-IsListed (load_positions le user scope ls.store) ls
            (load_positions-AllOwn ls.store h) h in
        let positions = load_positions le user scope isolated.store in
        elim (Bool-cases (has_cross positions)) [
          | inl e ↦
              rw (e, check_and_liquidate_user)
                (run_if_due-IsListed
                  (assess_cross (balance_of isolated.store (user, scope)) positions) isolated
                  (cross_only-AllOwn le.env.market scope positions
                    (load_positions-AllOwn isolated.store kept))
                  kept)
          | inr e ↦ rw (e, check_and_liquidate_user) kept
        ]
