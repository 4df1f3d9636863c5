-- ===== src/Matcher/Payment.antt =====
-- What a fill of src/worker/order-matcher.ts pays.
use Prim.Native.String.{String}
use hy_paper.Prelude.{
  ◌≡◌, refl, sym, ap, ◌∙◌, Bool, [], ◌∷◌, arith, if◌then◌else◌, Bool-cases, inl, inr,
}
use hy_paper.Prelude.Maps.{nat_keys, string_keys, pair_keys, update, beq_refl}
use hy_paper.Decimal.{Decimal, num, add, sub, is_zero}
use hy_paper.Decimal.Order.{IsOrdered, is_zero-eq}
use hy_paper.Decimal.Exact.{IsExact}
use hy_paper.Decimal.Ring.{ring_eq, var, minus, nought}
use hy_paper.AssetMeta.{scope_for_asset}
use hy_paper.Orders.{Order}
use hy_paper.Store.{Store, balance_of, credit}
use hy_paper.Env.{Env}
use hy_paper.Matcher.{
  credit_nonzero, debit_nonzero, write_balance, fill_pnl, fee_of, write_fill,
  execute_fill_with_size,
}
use hy_paper.Matcher.Settlement.{numbered, active}
use hy_paper.Matcher.Frame.{write_position-keeps}
use hy_paper.Matcher.Holdings.{execute_fill_with_size-holdings}

module _ {N : Type 0} ⦃d : Decimal N⦄ where
  module _ (order : IsOrdered N) (exact : IsExact N) where
    open exact use {add_zero, sub_lem}

    sub_zero : (a : N) → sub a (num 0) ≡ a
    sub_zero a = ring_eq exact (a ∷ []) (minus (var 0) nought) (var 0) refl

    pub own_balance :
        (account k : String × String) (s : Store N)
        → balance_of s k
          ≡ (if pair_keys.beq account k then balance_of s account else balance_of s k)
    own_balance account k s = elim (Bool-cases (pair_keys.beq account k)) [
      | inl h ↦ rw h (ap (balance_of s) (sym ((pair_keys.beq_iff account k).0 h)))
      | inr h ↦ rw h
    ]

    pub credit_nonzero-balance :
        (account k : String × String) (amount : N) (s : Store N)
        → balance_of (credit_nonzero account amount s) k
          ≡ (if pair_keys.beq account k then add (balance_of s account) amount else balance_of s k)
    unfolding credit_nonzero credit balance_of update
    credit_nonzero-balance account k amount s = elim (Bool-cases (is_zero amount)) [
      | inl z ↦
          rw (z, credit_nonzero, is_zero-eq order amount z, add_zero (balance_of s account))
            (own_balance account k s)
      | inr z ↦ rw (z, credit_nonzero) (ground arith)
    ]

    pub debit_nonzero-balance :
        (account k : String × String) (amount : N) (s : Store N)
        → balance_of (debit_nonzero account amount s) k
          ≡ (if pair_keys.beq account k then sub (balance_of s account) amount else balance_of s k)
    unfolding debit_nonzero credit balance_of update
    debit_nonzero-balance account k amount s = elim (Bool-cases (is_zero amount)) [
      | inl z ↦
          rw (z, debit_nonzero, is_zero-eq order amount z, sub_zero (balance_of s account))
            (own_balance account k s)
      | inr z ↦ rw (z, debit_nonzero, sub_lem (balance_of s account) amount) (ground arith)
    ]

    pub write_balance-balance :
        (account k : String × String) (pnl fee : N) (s : Store N)
        → balance_of (write_balance account pnl fee s) k ≡ (
            if pair_keys.beq account k
            then sub (add (balance_of s account) pnl) fee
            else balance_of s k)
    unfolding write_balance
    write_balance-balance account k pnl fee s =
        debit_nonzero-balance account k fee (credit_nonzero account pnl s)
        ∙ rw
            (
              credit_nonzero-balance account account pnl s,
              credit_nonzero-balance account k pnl s,
              beq_refl account,
            )
            (ground arith)

    pub balance-same :
        (s t : Store N) (k : String × String)
        → t.balances ≡ s.balances
        → balance_of t k ≡ balance_of s k
    unfolding balance_of
    balance-same s t k p = rw p

    -- A fill pays the realised profit less the fee into the account of its user in the dex of its asset,
    -- once, and no other account changes.
    pub fill_pays_account :
        (env : Env N) (o : Order N) (fill_px fill_sz : N) (is_taker : Bool) (s : Store N)
        (k : String × String)
        → balance_of (execute_fill_with_size env o fill_px fill_sz is_taker s) k ≡ (
            if pair_keys.beq (o.user_id, scope_for_asset env.market o.asset) k
            then sub
                (add
                  (balance_of s (o.user_id, scope_for_asset env.market o.asset))
                  (fill_pnl o fill_px fill_sz s))
                (fee_of env o fill_px fill_sz is_taker)
            else balance_of s k)
    unfolding write_fill
    fill_pays_account env o fill_px fill_sz is_taker s k =
        let t = execute_fill_with_size env o fill_px fill_sz is_taker s in
        let before = active env o fill_px fill_sz is_taker s in
        let pnl = fill_pnl o fill_px fill_sz s in
        let fee = fee_of env o fill_px fill_sz is_taker in
        let who : String × String = (o.user_id, scope_for_asset env.market o.asset) in
        let paid = write_balance who pnl fee before in
        let untouched =
          write_position-keeps (λ s'. s'.balances) env o fill_sz fill_px (λ p a h s'. refl)
            (numbered env o fill_px fill_sz is_taker s) in
        balance-same paid t k
          (ap (λ h. h.balances) (execute_fill_with_size-holdings env o fill_px fill_sz is_taker s))
        ∙ write_balance-balance who k pnl fee before
        ∙ rw (balance-same s before who untouched, balance-same s before k untouched)
