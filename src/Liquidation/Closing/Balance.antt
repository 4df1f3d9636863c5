-- ===== src/Liquidation/Closing/Balance.antt =====
-- The balances over the transaction of src/engine/liquidation.ts.
use Prim.Native.String.{String}
use hy_paper.Prelude.{
  ℕ, suc, ◌≡◌, refl, ap, ◌∙◌, Bool, List, [], ◌∷◌, inl, inr, Bool-cases, if◌then◌else◌, arith,
}
use hy_paper.Prelude.Maps.{nat_keys, string_keys, pair_keys, beq_refl, contains}
use hy_paper.Decimal.{Decimal, add, sub, is_zero}
use hy_paper.Decimal.Order.{IsOrdered}
use hy_paper.Decimal.Exact.{IsExact}
use hy_paper.Store.{Store, emit, balance_of, SameHoldings}
use hy_paper.Orphans.{Update}
use hy_paper.Orphans.Reconcile.{reconcile-holdings}
use hy_paper.Matcher.{write_balance, debit_nonzero}
use hy_paper.Matcher.Payment.{
  own_balance, write_balance-balance, debit_nonzero-balance, balance-same,
}
use hy_paper.Liquidation.{PositionView, Assessment, LiqEnv, LiqState, PlannedClose}
use hy_paper.Liquidation.Closing.{
  close_position, log_fill, queue_close, queue_closes, queue_vault_credit, transferred_of, commit,
  draw_numbers, announce_orphans, reconcile_closes, sz_after, run_liquidation, plan_closes,
  cooldown_target,
}

module _ {N : Type 0} ⦃d : Decimal N⦄ where
  -- What is left of a balance after the closes.
  unfoldable pub paid : N → List (PlannedClose N) → N
  paid b [] = b
  paid b (c ∷ cs) = paid (sub (add b c.fill.closed_pnl) c.fill.fee) cs

  close_position-balances :
      (user scope : String) (c : PlannedClose N) (ls : LiqState N)
      → (close_position user scope c ls).store.balances ≡ ls.store.balances
  unfolding close_position
  close_position-balances user scope c ls = elim (Bool-cases (is_zero c.remaining)) [
    | inl z ↦ rw (z, close_position)
    | inr z ↦ rw (z, close_position)
  ]

  pub queue_vault_credit-store :
      (le : LiqEnv N) (proceeds : N) (ls : LiqState N)
      → (queue_vault_credit le proceeds ls).store ≡ ls.store
  unfolding queue_vault_credit
  queue_vault_credit-store le proceeds ls = ground arith

  announce_orphans-holdings :
      (user : String) (os : List (Update N)) (s : Store N)
      → SameHoldings s (announce_orphans user os s)
  unfolding announce_orphans emit
  announce_orphans-holdings user [] s = refl
  announce_orphans-holdings user (o ∷ os) s = refl

  pub reconcile_closes-holdings :
      (le : LiqEnv N) (user : String) (cs : List (PlannedClose N)) (s : Store N)
      → SameHoldings s (reconcile_closes le user cs s)
  unfolding reconcile_closes
  reconcile_closes-holdings le user [] s = refl
  reconcile_closes-holdings le user (c ∷ cs) s =
      reconcile_closes-holdings le user cs _
      ∙ announce_orphans-holdings user _ _
      ∙ reconcile-holdings user c.p.asset (sz_after c) le.env.now s

  draw_numbers-balances :
      (ps : List (PositionView N)) (ls : LiqState N)
      → ((draw_numbers ps ls).store.balances ≡ ls.store.balances)
        × ((draw_numbers ps ls).total_collected ≡ ls.total_collected)
  unfolding draw_numbers
  draw_numbers-balances [] ls = (refl, refl)
  draw_numbers-balances (p ∷ ps) ls = draw_numbers-balances ps _

  module _ (order : IsOrdered N) (exact : IsExact N) (user scope : String) where
    abbrev account : String × String
    account = (user, scope)

    queue_close-balance :
        (c : PlannedClose N) (ls : LiqState N) (k : String × String)
        → balance_of (queue_close user scope c ls).store k ≡ (
            if pair_keys.beq account k
            then sub (add (balance_of ls.store account) c.fill.closed_pnl) c.fill.fee
            else balance_of ls.store k)
    unfolding queue_close log_fill
    queue_close-balance c ls k =
        let closed = close_position user scope c ls in
        let kept = close_position-balances user scope c ls in
        balance-same order exact (write_balance account c.fill.closed_pnl c.fill.fee closed.store) _
          k refl
        ∙ write_balance-balance order exact account k c.fill.closed_pnl c.fill.fee closed.store
        ∙ rw (
          balance-same order exact ls.store closed.store account kept,
          balance-same order exact ls.store closed.store k kept,
        )

    queue_closes-balance :
        (cs : List (PlannedClose N)) (ls : LiqState N) (k : String × String)
        → balance_of (queue_closes user scope cs ls).store k ≡ (
            if pair_keys.beq account k
            then paid (balance_of ls.store account) cs
            else balance_of ls.store k)
    unfolding queue_closes paid
    queue_closes-balance [] ls k = own_balance order exact account k ls.store
    queue_closes-balance (c ∷ cs) ls k =
        queue_closes-balance cs (queue_close user scope c ls) k
        ∙ rw (queue_close-balance c ls account, queue_close-balance c ls k, beq_refl account)
            (ground arith)

    commit-balance :
        (le : LiqEnv N) (key : String × (String × ℕ)) (a : Assessment N)
        (planned : List (PlannedClose N) × Bool) (ls : LiqState N) (k : String × String)
        → balance_of (commit le user scope key a planned ls).store k ≡ (
            if pair_keys.beq account k
            then sub (paid (balance_of ls.store account) planned.0) (transferred_of a)
            else balance_of ls.store k)
    unfolding commit
    commit-balance le key a planned ls k =
        let closed = queue_closes user scope planned.0 ls in
        let amount = transferred_of a in
        let debited : LiqState N = record closed {
          store = debit_nonzero account amount closed.store;
        } in
        let credited = queue_vault_credit-store le amount debited in
        balance-same order exact debited.store _ k (elim (Bool-cases planned.1) [
          | inl h ↦ rw h (ap (λ s. s.balances) credited)
          | inr h ↦ rw h (ap (λ s. s.balances) credited)
        ])
        ∙ debit_nonzero-balance order exact account k amount closed.store
        ∙ rw
            (
              queue_closes-balance planned.0 ls account,
              queue_closes-balance planned.0 ls k,
              beq_refl account,
            )
            (ground arith)

    abbrev pub closes_of :
        LiqEnv N → Assessment N → List (PositionView N) → Bool → LiqState N → List (PlannedClose N)
    closes_of le a targets in_cooldown ls =
        (plan_closes le a.method in_cooldown targets (suc ls.seq_oid) (suc ls.store.seq_tid)).0

    -- A liquidation changes the balance of its account only.
    pub run_liquidation-balance :
        (le : LiqEnv N) (a : Assessment N) (first : PositionView N)
        (targets : List (PositionView N)) (ls : LiqState N) (k : String × String)
        → balance_of (run_liquidation le user scope a (first ∷ targets) ls).store k ≡ (
            if pair_keys.beq account k
            then sub
                (paid (balance_of ls.store account) (
                  closes_of le a
                    (first ∷ targets)
                    (contains (user, (scope, cooldown_target first)) ls.cooldowns)
                    ls))
                (transferred_of a)
            else balance_of ls.store k)
    unfolding run_liquidation
    run_liquidation-balance le a first targets ls k =
        let drawn = draw_numbers (first ∷ targets) ls in
        let same = (draw_numbers-balances (first ∷ targets) ls).0 in
        let key : String × (String × ℕ) = (user, (scope, cooldown_target first)) in
        let planned =
          plan_closes le a.method (contains key ls.cooldowns) (first ∷ targets) (suc ls.seq_oid)
            (suc ls.store.seq_tid) in
        let committed = commit le user scope key a planned drawn in
        balance-same order exact _ _ k
          (ap (λ h. h.balances) (reconcile_closes-holdings le user planned.0 committed.store))
        ∙ commit-balance le key a planned drawn k
        ∙ rw (
          balance-same order exact ls.store drawn.store account same,
          balance-same order exact ls.store drawn.store k same,
        )
