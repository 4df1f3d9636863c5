-- ===== src/Liquidation/Closing/Listed.antt =====
-- The sets of positions over the transaction of src/engine/liquidation.ts.
use Prim.Native.String.{String}
use text.Mathlib.Text.{◌==◌ as str_eq}
use hy_paper.Prelude.{
  ℕ, suc, ◌≡◌, refl, sym, ap, ◌∙◌, Bool, true, false, ◌&&◌, Option, none, some, List, [], ◌∷◌, inl,
  inr, Bool-cases, if◌then◌else◌, arith, ◌==◌,
}
use hy_paper.Prelude.Maps.{nat_keys, string_keys, pair_keys, contains, contains-srem, update, srem}
use hy_paper.Decimal.{Decimal, is_zero}
use hy_paper.AssetMeta.{Market, scope_for_asset}
use hy_paper.Orders.{Position}
use hy_paper.Store.{Store, SameHoldings, credit}
use hy_paper.Matcher.{debit_nonzero}
use hy_paper.Matcher.Frame.{write_balance-keeps, debit_nonzero-keeps}
use hy_paper.Matcher.Settlement.{is_some}
use hy_paper.Liquidation.{Method, PositionView, Assessment, LiqEnv, LiqState, PlannedClose}
use hy_paper.Liquidation.Closing.{
  unlist, close_position, shrunk, plan_close, plan_closes, log_fill, queue_close, queue_closes,
  transferred_of, commit, draw_numbers, reconcile_closes, cooldown_target, run_liquidation,
}
use hy_paper.Liquidation.Closing.Balance.{queue_vault_credit-store, reconcile_closes-holdings}

contains-update :
    (sets : String × String → List ℕ) (k j : String × String) (a asset : ℕ)
    → contains a (update sets k (srem asset (sets k)) j)
      ≡ (if pair_keys.beq k j && (asset == a) then false else contains a (sets j))
unfolding update
contains-update sets k j a asset = elim (Bool-cases (pair_keys.beq k j)) [
  | inl same ↦
      let p : k ≡ j = (pair_keys.beq_iff k j).0 same in
      rw same (contains-srem asset a (sets k) ∙ rw p refl)
  | inr other ↦ rw other refl
]

module _ {N : Type 0} ⦃d : Decimal N⦄ where
  -- The set of a user's positions at a scope lists exactly the positions on the assets of that scope.
  abbrev pub IsListed : Market → Store N → Type 0
  IsListed market s =
      (user scope : String) (asset : ℕ)
      → contains asset (s.position_assets (user, scope))
        ≡ (str_eq (scope_for_asset market asset) scope && is_some (s.positions (user, asset)))

  pub same-IsListed :
      (market : Market) (s t : Store N) → SameHoldings s t → IsListed market s → IsListed market t
  same-IsListed market s t e h user scope asset =
      ap (λ k. contains asset (k.position_assets (user, scope))) e
      ∙ h user scope asset
      ∙ ap (λ k. str_eq (scope_for_asset market asset) scope && is_some (k.positions (user, asset)))
          (sym e)

  same_sets-IsListed :
      (market : Market) (s t : Store N)
      → t.positions ≡ s.positions
      → t.position_assets ≡ s.position_assets
      → IsListed market s
      → IsListed market t
  same_sets-IsListed market s t p q h user scope asset =
      ap (λ sets. contains asset (sets (user, scope))) q
      ∙ h user scope asset
      ∙ ap (λ ps. str_eq (scope_for_asset market asset) scope && is_some (ps (user, asset))) (sym p)

  -- The positions are on assets of a scope.
  abbrev pub AllOwn : Market → String → List (PositionView N) → Type 0
  AllOwn market scope [] = Unit {0}
  AllOwn market scope (p ∷ ps) = (scope_for_asset market p.asset ≡ scope) × AllOwn market scope ps

  abbrev OwnCloses : Market → String → List (PlannedClose N) → Type 0
  OwnCloses market scope [] = Unit {0}
  OwnCloses market scope (c ∷ cs) =
      (scope_for_asset market c.p.asset ≡ scope) × OwnCloses market scope cs

  plan_closes-OwnCloses :
      (market : Market) (scope : String) (le : LiqEnv N) (method : Method) (in_cooldown : Bool)
      (ps : List (PositionView N)) (oid tid : ℕ)
      → AllOwn market scope ps
      → OwnCloses market scope (plan_closes le method in_cooldown ps oid tid).0
  unfolding plan_closes plan_close
  plan_closes-OwnCloses market scope le method in_cooldown [] oid tid h = tt
  plan_closes-OwnCloses market scope le method in_cooldown (p ∷ ps) oid tid (own, rest) =
      (own, plan_closes-OwnCloses market scope le method in_cooldown ps (suc oid) (suc tid) rest)

  draw_numbers-sets :
      (ps : List (PositionView N)) (ls : LiqState N)
      → ((draw_numbers ps ls).store.positions ≡ ls.store.positions)
        × ((draw_numbers ps ls).store.position_assets ≡ ls.store.position_assets)
  unfolding draw_numbers
  draw_numbers-sets [] ls = (refl, refl)
  draw_numbers-sets (p ∷ ps) ls = draw_numbers-sets ps _

  unlist-contains :
      (user scope : String) (asset : ℕ) (s : Store N) (j : String × String) (a : ℕ)
      → contains a ((unlist user scope asset s).position_assets j) ≡ (
          if pair_keys.beq (user, "") j && (asset == a)
          then false
          else if pair_keys.beq (user, scope) j && (asset == a)
          then false
          else contains a (s.position_assets j))
  unfolding unlist
  unlist-contains user scope asset s j a =
      let sets = s.position_assets in
      let off : String × String → List ℕ =
        update sets (user, scope) (srem asset (sets (user, scope))) in
      contains-update off (user, "") j a asset
      ∙ rw (contains-update sets (user, scope) j a asset) refl

  module _ (market : Market) (user scope : String) where
    shrunk-is_some :
        (p : PositionView N) (remaining : N) (o : Option (Position N))
        → is_some (elim o [ none ↦ none | some q ↦ some (shrunk p remaining q) ]) ≡ is_some o
    shrunk-is_some p remaining none = refl
    shrunk-is_some p remaining (some q) = refl

    -- A position of the scope that is closed leaves its set, and one that shrinks stays.
    close_position-IsListed :
        (c : PlannedClose N) (ls : LiqState N)
        → scope_for_asset market c.p.asset ≡ scope
        → IsListed market ls.store
        → IsListed market (close_position user scope c ls).store
    unfolding close_position update
    close_position-IsListed c ls own h u sc a =
        let s = ls.store in
        let asset = c.p.asset in
        let key : String × ℕ = (user, asset) in
        elim (Bool-cases (is_zero c.remaining)) [
          | inl gone ↦
              let there : (asset == a) ≡ true
                  → str_eq (scope_for_asset market a) sc ≡ str_eq scope sc =
                λ e.
                  ap (λ x. str_eq x sc)
                    (ap (scope_for_asset market) (sym ((nat_keys.beq_iff asset a).0 e)) ∙ own) in
              rw (gone, close_position)
                (unlist-contains user scope asset
                    (record s { positions = update s.positions key none }) (u, sc) a
                  ∙ ground (arith, h u sc a, there))
          | inr left ↦
              rw (left, close_position)
                (h u sc a
                  ∙ ap (λ b. str_eq (scope_for_asset market a) sc && b)
                      (elim (Bool-cases (pair_keys.beq key (u, a))) [
                        | inl same ↦
                            let p : key ≡ (u, a) = (pair_keys.beq_iff key (u, a)).0 same in
                            rw same (
                              sym (
                                shrunk-is_some c.p c.remaining (s.positions key)
                                ∙ ap (λ k. is_some (s.positions k)) p))
                        | inr other ↦ rw other refl
                      ]))
        ]

    queue_close-IsListed :
        (c : PlannedClose N) (ls : LiqState N)
        → scope_for_asset market c.p.asset ≡ scope
        → IsListed market ls.store
        → IsListed market (queue_close user scope c ls).store
    unfolding queue_close log_fill credit
    queue_close-IsListed c ls own h =
        let closed = close_position user scope c ls in
        same_sets-IsListed market closed.store (queue_close user scope c ls).store
          (write_balance-keeps (λ s. s.positions) (user, scope) c.fill.closed_pnl c.fill.fee
            (λ a s. refl) closed.store)
          (write_balance-keeps (λ s. s.position_assets) (user, scope) c.fill.closed_pnl c.fill.fee
            (λ a s. refl) closed.store)
          (close_position-IsListed c ls own h)

    queue_closes-IsListed :
        (cs : List (PlannedClose N)) (ls : LiqState N)
        → OwnCloses market scope cs
        → IsListed market ls.store
        → IsListed market (queue_closes user scope cs ls).store
    unfolding queue_closes
    queue_closes-IsListed [] ls own h = h
    queue_closes-IsListed (c ∷ cs) ls (own, rest) h =
        queue_closes-IsListed cs (queue_close user scope c ls) rest
          (queue_close-IsListed c ls own h)

    commit-IsListed :
        (le : LiqEnv N) (key : String × (String × ℕ)) (a : Assessment N)
        (planned : List (PlannedClose N) × Bool) (ls : LiqState N)
        → OwnCloses market scope planned.0
        → IsListed market ls.store
        → IsListed market (commit le user scope key a planned ls).store
    unfolding commit credit
    commit-IsListed le key a planned ls own h =
        let closed = queue_closes user scope planned.0 ls in
        let transferred = transferred_of a in
        let paid = debit_nonzero (user, scope) transferred closed.store in
        let debited : LiqState N = record closed { store = paid } in
        let kept : IsListed market paid =
          same_sets-IsListed market closed.store paid
            (debit_nonzero-keeps (λ s. s.positions) (user, scope) transferred (λ a s. refl)
              closed.store)
            (debit_nonzero-keeps (λ s. s.position_assets) (user, scope) transferred (λ a s. refl)
              closed.store)
            (queue_closes-IsListed planned.0 ls own h) in
        let credited = queue_vault_credit-store le transferred debited in
        elim (Bool-cases planned.1) [
          | inl partial ↦ rw (partial, commit, credited) kept
          | inr whole ↦ rw (whole, commit, credited) kept
        ]

    -- A liquidation of positions of the scope.
    pub run_liquidation-IsListed :
        (le : LiqEnv N) (a : Assessment N) (targets : List (PositionView N)) (ls : LiqState N)
        → AllOwn market scope targets
        → IsListed market ls.store
        → IsListed market (run_liquidation le user scope a targets ls).store
    unfolding run_liquidation
    run_liquidation-IsListed le a [] ls own h = h
    run_liquidation-IsListed le a (first ∷ targets) ls own h =
        let key : String × (String × ℕ) = (user, (scope, cooldown_target first)) in
        let planned =
          plan_closes le a.method (contains key ls.cooldowns) (first ∷ targets) (suc ls.seq_oid)
            (suc ls.store.seq_tid) in
        let drawn = draw_numbers (first ∷ targets) ls in
        let same = draw_numbers-sets (first ∷ targets) ls in
        let committed = commit le user scope key a planned drawn in
        same-IsListed market committed.store (reconcile_closes le user planned.0 committed.store)
          (reconcile_closes-holdings le user planned.0 committed.store)
          (commit-IsListed le key a planned drawn
            (plan_closes-OwnCloses market scope le a.method (contains key ls.cooldowns)
              (first ∷ targets) (suc ls.seq_oid) (suc ls.store.seq_tid) own)
            (same_sets-IsListed market ls.store drawn.store same.0 same.1 h))
