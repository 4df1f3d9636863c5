-- ===== src/Transfers/Conservation.antt =====
-- Transfers of src/engine/transfers.ts against their specification: an amount goes from one bucket to another.
use Prim.Native.String.{String}
use text.Mathlib.Text.{◌==◌ as str_eq, find?, starts_with}
use hy_paper.Prelude.{
  ℕ, ◌≡◌, refl, ap, ◌∙◌, Bool, true, false, ◌&&◌, Option, none, some, [], ◌∷◌, inl, inr, arith,
  if◌then◌else◌, Bool-cases,
}
use hy_paper.Prelude.Maps.{string_keys, pair_keys, update, beq_refl, beq_ne}
use hy_paper.Prelude.Texts.{lower}
use hy_paper.Decimal.{Decimal, num, add, sub, lte}
use hy_paper.Decimal.Exact.{IsExact}
use hy_paper.Decimal.Ring.{ring_eq, var, plus, minus}
use hy_paper.Transfers.{
  Answer, ok, Wallets, Request, class_transfer, send, spot, asset, emit_account_update, hset,
  to_fixed, value_at, bal_field, spot_field, dex_field, move, move_known, transfer,
  usd_class_transfer, class_ends, usd_send, spot_send, sender_of, send_change, send_asset, perform,
}

module _ {N : Type 0} ⦃d : Decimal N⦄ where
  -- Which bucket pays which, and how much, where a request names a payee that is known.
  pub data Pays (w : Wallets N) : Request N → String × String → String × String → N → Type 0 where
    class_pays :
        (user : String) (a : N) (sub_account : Option String) (to_perp : Bool)
        → Pays w
            (class_transfer user (some a) sub_account to_perp)
            (class_ends user sub_account to_perp).0
            (class_ends user sub_account to_perp).1
            a
    send_pays :
        (sender destination : String) (a v : N)
        → w.accounts (lower destination, bal_field "") ≡ some v
        → Pays w
            (send sender destination (some a))
            (sender, bal_field "")
            (lower destination, bal_field "")
            a
    spot_pays :
        (sender destination token : String) (a v : N) (i : ℕ)
        → starts_with (lower token) "usdc:" ≡ true
        → find? token ":" ≡ some i
        → w.accounts (lower destination, spot_field) ≡ some v
        → Pays w
            (spot sender destination token (some a))
            (sender, spot_field)
            (lower destination, spot_field)
            a
    asset_pays :
        (sender destination source_dex destination_dex from_sub_account : String) (a v : N)
        → str_eq destination_dex "evm" ≡ false
        → (str_eq (lower destination) (lower sender) && str_eq source_dex destination_dex) ≡ false
        → w.accounts (lower destination, dex_field destination_dex) ≡ some v
        → Pays w
            (asset sender destination source_dex destination_dex (some a) from_sub_account)
            (sender_of sender from_sub_account, dex_field source_dex)
            (lower destination, dex_field destination_dex)
            a

  -- After the payment the payer has that much less, the payee that much more, the two have together what
  -- they had, and every other bucket has what it had.
  abbrev pub Paid : Wallets N → Wallets N → String × String → String × String → N → Type 0
  Paid w after from to a =
      (value_at from after ≡ sub (value_at from w) a)
      × (value_at to after ≡ add (value_at to w) a)
      × (add (value_at from after) (value_at to after) ≡ add (value_at from w) (value_at to w))
      × ((key : String × String)
          → pair_keys.beq from key ≡ false
          → pair_keys.beq to key ≡ false
          → after.accounts key ≡ w.accounts key)

  -- The new balances have at most six places.
  abbrev pub HasSixPlaces : Wallets N → String × String → String × String → N → Type 0
  HasSixPlaces w from to a =
      (to_fixed (sub (value_at from w) a) ≡ sub (value_at from w) a)
      × (to_fixed (add (value_at to w) a) ≡ add (value_at to w) a)

  -- A request has been carried out, and the balances are those of a move.
  abbrev pub Moved :
      Wallets N → String × String → String × String → N → Answer N × Wallets N → Type 0
  Moved w from to a (answer, after) = (answer ≡ ok) × (after.accounts ≡ (move from to a w).accounts)

  transfer-Moved :
      (w : Wallets N) (from to : String × String) (a : N) (change : N → Wallets N → Wallets N)
      → lte a (num 0) ≡ false
      → lte a (value_at from w) ≡ true
      → (change a w).accounts ≡ (move from to a w).accounts
      → Moved w from to a (transfer (some a) from change w)
  unfolding transfer
  transfer-Moved w from to a change p covered h = rw (p, transfer, covered) (refl, h)

  move_known-some :
      (from to : String × String) (a v : N) (w : Wallets N)
      → w.accounts to ≡ some v
      → move_known from to a w ≡ move from to a w
  unfolding move_known
  move_known-some from to a v w e = move_known-at (move from to a w) refl
    where
      move_known-at : (x : Wallets N) → move from to a w ≡ x → move_known from to a w ≡ x
      move_known-at x h = rw (e, move_known) h

  value-hset :
      (k j : String × String) (v : N) (w : Wallets N)
      → value_at j (hset k v w) ≡ (if pair_keys.beq k j then v else value_at j w)
  unfolding value_at hset update
  value-hset k j v w = ground arith

  pub move-values :
      (from to j : String × String) (a : N) (w : Wallets N)
      → value_at j (move from to a w) ≡ (
          if pair_keys.beq to j
          then to_fixed (add (value_at to w) a)
          else if pair_keys.beq from j
          then to_fixed (sub (value_at from w) a)
          else value_at j w)
  unfolding move
  move-values from to j a w =
      value-hset to j _ (hset from (to_fixed (sub (value_at from w) a)) w)
      ∙ rw (value-hset from j (to_fixed (sub (value_at from w) a)) w) refl

  move-others :
      (from to key : String × String) (a : N) (w : Wallets N)
      → pair_keys.beq from key ≡ false
      → pair_keys.beq to key ≡ false
      → (move from to a w).accounts key ≡ w.accounts key
  unfolding move hset update
  move-others from to key a w p q = rw (q, p) refl

  move-Paid :
      (exact : IsExact N) (from to : String × String) (a : N) (w : Wallets N)
      → pair_keys.beq from to ≡ false
      → HasSixPlaces w from to a
      → Paid w (move from to a w) from to a
  move-Paid exact from to a w apart (less, more) =
      let back : pair_keys.beq to from ≡ false = beq_ne from to apart in
      let left : value_at from (move from to a w) ≡ sub (value_at from w) a =
        move-values from to from a w ∙ rw (back, beq_refl from) less in
      let right : value_at to (move from to a w) ≡ add (value_at to w) a =
        move-values from to to a w ∙ rw (beq_refl to) more in
      (
        left,
        right,
        rw (left, right)
            (ring_eq exact (value_at from w ∷ value_at to w ∷ a ∷ [])
              (plus (minus (var 0) (var 2)) (plus (var 1) (var 2))) (plus (var 0) (var 1)) refl),
        λ key p q. move-others from to key a w p q,
      )

  send_change-accounts :
      (sender destination source_dex destination_dex sub_account : String) (a v : N) (w : Wallets N)
      → str_eq destination_dex "evm" ≡ false
      → w.accounts (lower destination, dex_field destination_dex) ≡ some v
      → (send_change sender destination source_dex destination_dex sub_account a w).accounts
        ≡ (move
            (sender_of sender sub_account, dex_field source_dex)
            (lower destination, dex_field destination_dex)
            a
            w).accounts
  unfolding send_change emit_account_update
  send_change-accounts sender destination source_dex destination_dex sub_account a v w core e =
      let from : String × String = (sender_of sender sub_account, dex_field source_dex) in
      let to : String × String = (lower destination, dex_field destination_dex) in
      elim (Bool-cases (str_eq (lower destination) (lower sender))) [
        | inl own ↦ rw (core, send_change, own) refl
        | inr other ↦
            rw (core, send_change, other)
              (ap (λ (x : Wallets N). x.accounts) (move_known-some from to a v w e))
      ]

  pub carried_out :
      (r : Request N) (w : Wallets N) (from to : String × String) (a : N)
      → Pays w r from to a
      → lte a (num 0) ≡ false
      → lte a (value_at from w) ≡ true
      → Moved w from to a (perform r w)
  unfolding perform usd_class_transfer usd_send spot_send send_asset emit_account_update
  carried_out r w from to a (class_pays user b sub_account to_perp) p covered =
      let (_, _, users) = class_ends user sub_account to_perp in
      transfer-Moved w from to b
        (λ (c : N) (x : Wallets N). emit_account_update users [] (move from to c x)) p covered refl
  carried_out r w from to a (send_pays sender destination b v e) p covered =
      transfer-Moved w from to b
        (λ (c : N) (x : Wallets N).
          emit_account_update (sender ∷ lower destination ∷ []) [] (move_known from to c x))
        p covered (ap (λ (x : Wallets N). x.accounts) (move_known-some from to b v w e))
  carried_out r w from to a (spot_pays sender destination token b v i usdc colon e) p covered =
      rw (p, spot_send, colon, usdc)
        (transfer-Moved w from to b
          (λ (c : N) (x : Wallets N).
            emit_account_update (sender ∷ destination ∷ []) [] (move_known from to c x))
          p covered (ap (λ (x : Wallets N). x.accounts) (move_known-some from to b v w e)))
  carried_out r w from to a
        (asset_pays sender destination source_dex destination_dex sub_account b v core apart e) p
        covered =
      rw (p, send_asset, apart)
        (transfer-Moved w from to b
          (send_change sender destination source_dex destination_dex sub_account) p covered
          (send_change-accounts sender destination source_dex destination_dex sub_account b v w core
            e))

  pub value-same :
      (key : String × String) (x y : Wallets N)
      → x.accounts ≡ y.accounts
      → value_at key x ≡ value_at key y
  unfolding value_at
  value-same key x y same =
      ap
        (λ (f : String × String → Option N). elim (f key) as (λ o. N) [ none ↦ num 0 | some v ↦ v ])
        same

  accounts-Paid :
      (w x y : Wallets N) (from to : String × String) (a : N)
      → x.accounts ≡ y.accounts
      → Paid w y from to a
      → Paid w x from to a
  accounts-Paid w x y from to a same (left, right, sum, others) =
      let p = value-same from x y same in
      let q = value-same to x y same in
      (
        p ∙ left,
        q ∙ right,
        rw (p, q) sum,
        λ key h k. ap (λ (f : String × String → Option N). f key) same ∙ others key h k,
      )

  -- A request whose payee is known and whose payer has the amount is carried out: the amount goes from one
  -- bucket to the other, nothing is lost or made, and no other bucket changes. The two buckets
  -- are different, and the new balances have at most six places.
  pub payment_moves_funds :
      (exact : IsExact N) (r : Request N) (w : Wallets N) (from to : String × String) (a : N)
      → Pays w r from to a
      → lte a (num 0) ≡ false
      → lte a (value_at from w) ≡ true
      → pair_keys.beq from to ≡ false
      → HasSixPlaces w from to a
      → ((perform r w).0 ≡ ok) × Paid w (perform r w).1 from to a
  payment_moves_funds exact r w from to a pays p covered apart places =
      let (answer, same) = carried_out r w from to a pays p covered in
      (
        answer,
        accounts-Paid w (perform r w).1 (move from to a w) from to a same
            (move-Paid exact from to a w apart places),
      )
