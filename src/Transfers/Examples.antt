-- ===== src/Transfers/Examples.antt =====
-- Transfers of src/engine/transfers.ts on test data: Ann has 100 and 5 in spot, Bob has 20.
use text.Mathlib.Text.{◌==◌ as str_eq}
use hy_paper.Prelude.{◌≡◌, refl, some, none, [], if◌then◌else◌, arith}
use hy_paper.Prelude.Int.{ℤ, pos, ◌+ℤ◌, ◌-ℤ◌}
use hy_paper.Prelude.Maps.{string_keys, pair_keys}
use hy_paper.Prelude.Texts.{lower, trim}
use hy_paper.Decimal.Integers.{integers, integers-IsOrdered, integers-IsExact}
use hy_paper.Transfers.{
  ok, Wallets, send, asset, value_at, bal_field, dex_field, sender_of, perform,
  parse_amount_with_subaccount,
}
use hy_paper.Transfers.Solvency.{IsSolvent, Outcome, transfers_are_sound}
use hy_paper.Transfers.Conservation.{asset_pays, Paid, payment_moves_funds}
use hy_paper.Transfers.SelfSend.{self_send_mints}

abbrev wallets : Wallets ℤ
wallets = record {
  accounts = λ key.
      if pair_keys.beq key ("ann", "balance")
      then some (pos 100)
      else if pair_keys.beq key ("ann", "balance_spot")
      then some (pos 5)
      else if pair_keys.beq key ("bob", "balance")
      then some (pos 20)
      else none;
  updates = [];
}

trim_example : trim " 5 subaccount:0xAB " ≡ "5 subaccount:0xAB"
unfolding trim
trim_example = refl

parse_example :
    parse_amount_with_subaccount
      (λ s. if str_eq s "5" then some (pos 5) else none)
      "5 subaccount:0xAB"
    ≡ (some (pos 5), some "0xab")
unfolding parse_amount_with_subaccount lower trim
parse_example = refl

wallets-IsSolvent : IsSolvent wallets
wallets-IsSolvent key v h = ground arith

transfers_are_sound_example : Outcome wallets (perform (send "ann" "bob" (some (pos 40))) wallets)
transfers_are_sound_example =
    transfers_are_sound integers-IsOrdered (send "ann" "bob" (some (pos 40))) wallets
      wallets-IsSolvent

payment_moves_funds_example :
    ((perform (asset "ann" "Bob" "spot" "" (some (pos 3)) "") wallets).0 ≡ ok)
    × Paid wallets
        (perform (asset "ann" "Bob" "spot" "" (some (pos 3)) "") wallets).1
        ("ann", "balance_spot")
        ("bob", "balance")
        (pos 3)
unfolding lower sender_of dex_field bal_field value_at ◌+ℤ◌ ◌-ℤ◌
payment_moves_funds_example =
    payment_moves_funds integers-IsExact (asset "ann" "Bob" "spot" "" (some (pos 3)) "") wallets
      ("ann", "balance_spot") ("bob", "balance") (pos 3)
      (asset_pays "ann" "Bob" "spot" "" "" (pos 3) (pos 20) refl refl refl) refl refl refl
      (refl, refl)

self_send_mints_example :
    ((perform (send "ann" "ANN" (some (pos 40))) wallets).0 ≡ ok)
    × (value_at ("ann", bal_field "") (perform (send "ann" "ANN" (some (pos 40))) wallets).1
        ≡ pos 140)
unfolding lower bal_field ◌+ℤ◌
self_send_mints_example = self_send_mints "ann" "ANN" (pos 40) (pos 100) wallets refl refl refl refl
