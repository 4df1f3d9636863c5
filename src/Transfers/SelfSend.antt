-- ===== src/Transfers/SelfSend.antt =====
-- Sends of src/engine/transfers.ts to the sender's own address.
use Prim.Native.String.{String}
use hy_paper.Prelude.{◌≡◌, refl, ◌∙◌, true, false, some}
use hy_paper.Prelude.Maps.{string_keys, pair_keys, beq_refl}
use hy_paper.Prelude.Texts.{lower}
use hy_paper.Decimal.{Decimal, num, add, lte}
use hy_paper.Transfers.{ok, Wallets, Request, send, to_fixed, value_at, bal_field, move, perform}
use hy_paper.Transfers.Conservation.{send_pays, move-values, carried_out, value-same}

module _ {N : Type 0} ⦃d : Decimal N⦄ where
  value-some :
      (key : String × String) (v : N) (w : Wallets N) → w.accounts key ≡ some v → value_at key w ≡ v
  unfolding value_at
  value-some key v w e = rw (e, value_at) refl

  -- A user who has the amount and sends it with usdSend to the own address keeps it and gets it once
  -- more: the balance grows by the amount, since it is written as debited and then, from the same
  -- reading, as credited. The amount is positive, the address in lower case.
  pub self_send_mints :
      (sender destination : String) (a v : N) (w : Wallets N)
      → lower destination ≡ sender
      → w.accounts (sender, bal_field "") ≡ some v
      → lte a (num 0) ≡ false
      → lte a v ≡ true
      → ((perform (send sender destination (some a)) w).0 ≡ ok)
        × (value_at (sender, bal_field "") (perform (send sender destination (some a)) w).1
            ≡ to_fixed (add v a))
  self_send_mints sender destination a v w own held p covered =
      let key : String × String = (sender, bal_field "") in
      let to : String × String = (lower destination, bal_field "") in
      let request : Request N = send sender destination (some a) in
      let (answer, after) =
        carried_out request w key to a (send_pays sender destination a v (rw own held)) p
          (rw (value-some key v w held) covered) in
      (
        answer,
        value-same key (perform request w).1 (move key to a w) after
            ∙ move-values key to key a w
            ∙ rw (own, beq_refl key, value-some key v w held) refl,
      )
