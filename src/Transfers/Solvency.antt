-- ===== src/Transfers/Solvency.antt =====
-- What every transfer of src/engine/transfers.ts keeps.
use Prim.Native.String.{String}
use text.Mathlib.Text.{◌==◌ as str_eq, find?, starts_with}
use hy_paper.Prelude.{
  ◌≡◌, refl, true, ◌&&◌, Option, none, some, [], ◌∷◌, inl, inr, arith, Bool-cases, Option-cases,
}
use hy_paper.Prelude.Maps.{string_keys, pair_keys, update}
use hy_paper.Prelude.Texts.{lower}
use hy_paper.Decimal.{Decimal, num, sub, lte}
use hy_paper.Decimal.Order.{IsOrdered}
use hy_paper.Transfers.{
  Error, Answer, ok, error, Wallets, Request, class_transfer, send, spot, asset, to_evm,
  emit_account_update, hset, to_fixed, dex_field, bal_field, spot_field, value_at, positive, debit,
  move, move_known, transfer, usd_class_transfer, class_ends, usd_send, spot_send, sender_of,
  send_change, send_asset, send_to_evm_with_data, perform,
}

module _ {N : Type 0} ⦃d : Decimal N⦄ where
  -- No balance is below zero.
  abbrev pub IsSolvent : Wallets N → Type 0
  IsSolvent w = (key : String × String) (v : N) → w.accounts key ≡ some v → lte (num 0) v ≡ true

  -- What may come of a request.
  pub data Outcome (w : Wallets N) : Answer N × Wallets N → Type 0 where
    carried : {after : Wallets N} → IsSolvent after → Outcome w (ok, after)
    refused : (e : Error N) → Outcome w (error e, w)

  -- What a request may do: nothing if it is refused, and else leave no balance below zero.
  abbrev Sound : Wallets N → Answer N × Wallets N → Type 0
  Sound w (ok, after) = IsSolvent w → IsSolvent after
  Sound w (error e, after) = after ≡ w

  module _ (order : IsOrdered N) where
    pub fixed_nonneg : (v : N) → lte (num 0) v ≡ true → lte (num 0) (to_fixed v) ≡ true
    fixed_nonneg v h = rw (order.half_up_zero 6) at (order.half_up_mono (num 0) v 6 h)

    pub value-nonneg :
        (key : String × String) (w : Wallets N) → IsSolvent w → lte (num 0) (value_at key w) ≡ true
    unfolding value_at
    value-nonneg key w h = elim (Option-cases (w.accounts key)) [
      | inl e ↦ rw (e, value_at) (order.lte_refl (num 0))
      | inr (v, e) ↦ rw (e, value_at) (h key v e)
    ]

    pub hset-Solvent :
        (key : String × String) (v : N) (w : Wallets N)
        → lte (num 0) v ≡ true
        → IsSolvent w
        → IsSolvent (hset key v w)
    unfolding hset update
    hset-Solvent key v w p h k u e = elim (Bool-cases (pair_keys.beq key k)) [
      | inl own ↦ let same : v ≡ u = ground arith in rw (← same) p
      | inr other ↦ h k u (rw other at e)
    ]

    pub left_nonneg : (have a : N) → lte a have ≡ true → lte (num 0) (to_fixed (sub have a)) ≡ true
    left_nonneg have a h =
        fixed_nonneg (sub have a) (rw (order.sub_self a) at (order.sub_mono a have a h))

    debit-Solvent :
        (key : String × String) (a : N) (w : Wallets N)
        → lte a (value_at key w) ≡ true
        → IsSolvent w
        → IsSolvent (debit key a w)
    unfolding debit
    debit-Solvent key a w covered h =
        hset-Solvent key _ w (left_nonneg (value_at key w) a covered) h

    pub move-Solvent :
        (from to : String × String) (a : N) (w : Wallets N)
        → lte (num 0) a ≡ true
        → lte a (value_at from w) ≡ true
        → IsSolvent w
        → IsSolvent (move from to a w)
    unfolding move
    move-Solvent from to a w p covered h =
        let left = hset from (to_fixed (sub (value_at from w) a)) w in
        hset-Solvent to _ left
          (fixed_nonneg _ (order.add_nonneg (value_at to w) a (value-nonneg to w h) p))
          (hset-Solvent from _ w (left_nonneg (value_at from w) a covered) h)

    move_known-Solvent :
        (from to : String × String) (a : N) (w : Wallets N)
        → lte (num 0) a ≡ true
        → lte a (value_at from w) ≡ true
        → IsSolvent w
        → IsSolvent (move_known from to a w)
    unfolding move_known
    move_known-Solvent from to a w p covered h = elim (Option-cases (w.accounts to)) [
      | inl e ↦ rw (e, move_known) (debit-Solvent from a w covered h)
      | inr (v, e) ↦ rw (e, move_known) (move-Solvent from to a w p covered h)
    ]

    positive-some : (amount : Option N) (a : N) → positive amount ≡ some a → lte (num 0) a ≡ true
    positive-some none a h = absurd (ground arith)
    positive-some (some b) a h = ground (arith, order.lte_total b (num 0))

    transfer-Sound :
        (amount : Option N) (from : String × String) (change : N → Wallets N → Wallets N)
        (w : Wallets N)
        → ((a : N)
            → lte (num 0) a ≡ true
            → lte a (value_at from w) ≡ true
            → IsSolvent w
            → IsSolvent (change a w))
        → Sound w (transfer amount from change w)
    unfolding transfer
    transfer-Sound amount from change w keeps = elim (Option-cases (positive amount)) [
      | inl e ↦ rw (e, transfer) refl
      | inr (a, e) ↦ elim (Bool-cases (lte a (value_at from w))) [
        | inl covered ↦ rw (e, transfer, covered) (keeps a (positive-some amount a e) covered)
        | inr short ↦ rw (e, transfer, short) refl
      ]
    ]

    send_change-Solvent :
        (sender destination source_dex destination_dex from_sub_account : String) (a : N)
        (w : Wallets N)
        → lte (num 0) a ≡ true
        → lte a (value_at (sender_of sender from_sub_account, dex_field source_dex) w) ≡ true
        → IsSolvent w
        → IsSolvent (send_change sender destination source_dex destination_dex from_sub_account a w)
    unfolding send_change emit_account_update
    send_change-Solvent sender destination source_dex destination_dex from_sub_account a w p covered
          h =
        let from : String × String = (sender_of sender from_sub_account, dex_field source_dex) in
        let to : String × String = (lower destination, dex_field destination_dex) in
        elim (Bool-cases (str_eq destination_dex "evm")) [
          | inl evm ↦ rw (evm, send_change) (debit-Solvent from a w covered h)
          | inr core ↦ elim (Bool-cases (str_eq (lower destination) (lower sender))) [
            | inl own ↦ rw (core, send_change, own) (move-Solvent from to a w p covered h)
            | inr other ↦ rw (core, send_change, other) (move_known-Solvent from to a w p covered h)
          ]
        ]

    spot_send-Sound :
        (sender destination token : String) (amount : Option N) (w : Wallets N)
        → Sound w (spot_send sender destination token amount w)
    unfolding spot_send emit_account_update
    spot_send-Sound sender destination token amount w =
        let from : String × String = (sender, spot_field) in
        let to : String × String = (lower destination, spot_field) in
        elim (Option-cases (positive amount)) [
          | inl e ↦ rw (e, spot_send) refl
          | inr (a, e) ↦ elim (Option-cases (find? token ":")) [
            | inl t ↦ rw (e, spot_send, t) refl
            | inr (i, t) ↦ elim (Bool-cases (starts_with (lower token) "usdc:")) [
              | inl usdc ↦
                  rw (e, spot_send, t, usdc)
                    (transfer-Sound amount from
                      (λ (b : N) (v : Wallets N).
                        emit_account_update (sender ∷ destination ∷ []) [] (move_known from to b v))
                      w (λ b p covered h. move_known-Solvent from to b w p covered h))
              | inr other ↦ rw (e, spot_send, t, other) (λ h. h)
            ]
          ]
        ]

    send_asset-Sound :
        (sender destination source_dex destination_dex : String) (amount : Option N)
        (from_sub_account : String) (w : Wallets N)
        → Sound w
            (send_asset sender destination source_dex destination_dex amount from_sub_account w)
    unfolding send_asset
    send_asset-Sound sender destination source_dex destination_dex amount from_sub_account w =
        elim (Option-cases (positive amount)) [
          | inl e ↦ rw (e, send_asset) refl
          | inr (a, e) ↦
              elim (Bool-cases
                (str_eq (lower destination) (lower sender) && str_eq source_dex destination_dex)) [
                  | inl same ↦ rw (e, send_asset, same) refl
                  | inr apart ↦
                      rw (e, send_asset, apart)
                        (transfer-Sound amount
                          (sender_of sender from_sub_account, dex_field source_dex)
                          (send_change sender destination source_dex destination_dex
                            from_sub_account)
                          w
                          (λ b p covered h.
                            send_change-Solvent sender destination source_dex destination_dex
                              from_sub_account b w p covered h))
                ]
        ]

    perform-Sound : (r : Request N) (w : Wallets N) → Sound w (perform r w)
    unfolding perform usd_class_transfer usd_send send_to_evm_with_data emit_account_update
    perform-Sound (class_transfer user amount sub_account to_perp) w =
        let (from, to, users) = class_ends user sub_account to_perp in
        transfer-Sound amount from
          (λ (a : N) (v : Wallets N). emit_account_update users [] (move from to a v)) w
          (λ a p covered h. move-Solvent from to a w p covered h)
    perform-Sound (send sender destination amount) w =
        let from : String × String = (sender, bal_field "") in
        let to : String × String = (lower destination, bal_field "") in
        transfer-Sound amount from
          (λ (a : N) (v : Wallets N).
            emit_account_update (sender ∷ lower destination ∷ []) [] (move_known from to a v))
          w (λ a p covered h. move_known-Solvent from to a w p covered h)
    perform-Sound (spot sender destination token amount) w =
        spot_send-Sound sender destination token amount w
    perform-Sound (asset sender destination source_dex destination_dex amount sub_account) w =
        send_asset-Sound sender destination source_dex destination_dex amount sub_account w
    perform-Sound (to_evm user amount) w =
        let from : String × String = (user, bal_field "") in
        transfer-Sound amount from
          (λ (a : N) (v : Wallets N). emit_account_update (user ∷ []) [] (debit from a v)) w
          (λ a p covered h. debit-Solvent from a w covered h)

    Sound-Outcome :
        (w : Wallets N) (p : Answer N × Wallets N) → IsSolvent w → Sound w p → Outcome w p
    Sound-Outcome w (ok, after) h keeps = carried (keeps h)
    Sound-Outcome w (error e, after) h same = rw same (refused e)

    -- Whatever is asked for, where no balance is below zero: a transfer that is refused changes nothing,
    -- and one that is carried out leaves no balance below zero.
    pub transfers_are_sound :
        (r : Request N) (w : Wallets N) → IsSolvent w → Outcome w (perform r w)
    transfers_are_sound r w h = Sound-Outcome w (perform r w) h (perform-Sound r w)
