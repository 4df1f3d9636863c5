-- ===== src/Transfers.antt =====
-- src/engine/transfers.ts: transfers of USDC between the buckets of accounts.
pub mod Solvency
pub mod Conservation
pub mod SelfSend
mod Examples
use Prim.Native.String.{String, slice, len, ◌++◌}
use text.Mathlib.Text.{◌==◌ as str_eq, find?, starts_with}
use hy_paper.Prelude.{
  ℕ, ◌+◌, Bool, true, false, not, ◌&&◌, ◌||◌, Option, none, some, List, [], ◌∷◌, if◌then◌else◌,
}
use hy_paper.Prelude.Maps.{string_keys, pair_keys, update, contains}
use hy_paper.Prelude.Texts.{lower, trim}
use hy_paper.Decimal.{Decimal, num, add, sub, lte, lt}

pub data Error (N : Type 0) : Type 0 where
  not_positive bad_token invalid_send : Error N
  insufficient : (have need : N) → Error N

pub data Answer (N : Type 0) : Type 0 where
  ok : Answer N
  error : Error N → Answer N

-- The hash fields of USER_ACCOUNT, by user and field, and the events `accountUpdate` that were sent, with
-- their users and dexes, newest first.
pub record Wallets (N : Type 0) : Type 0 where
  pub accounts : String × String → Option N
  pub updates : List (String × List String)

-- USER_BAL_FIELD
unfoldable pub bal_field : String → String
bal_field scope = if str_eq scope "" then "balance" else "balance:" ++ scope

-- USER_BAL_SPOT_FIELD
abbrev pub spot_field : String
spot_field = "balance_spot"

-- The bucket of a dex as sendAsset names it.
unfoldable pub dex_field : String → String
unfolding bal_field
dex_field dex = if str_eq dex "spot" then spot_field else bal_field dex

-- A `Set` of strings that are not empty, in the order of first occurrence.
unique : (String → Bool) → List String → List String → List String
unfolding contains
unique keep seen [] = []
unique keep seen (s ∷ rest) =
    let after = unique keep (s ∷ seen) rest in
    let without = unique keep seen rest in
    if keep s && not (contains s seen) then s ∷ after else without

lower_all : List String → List String
unfolding lower
lower_all [] = []
lower_all (s ∷ rest) = lower s ∷ lower_all rest

is_user : String → Bool
is_user s = not (str_eq s "")

is_venue : String → Bool
is_venue s = not (str_eq s "") && (not (str_eq s "spot") && not (str_eq s "evm"))

send_updates : List String → List String → List (String × List String) → List (String × List String)
send_updates venues [] sent = sent
send_updates venues (user ∷ users) sent = send_updates venues users ((user, venues) ∷ sent)

-- The source and the target of usdClassTransfer, and the users to tell.
pub class_ends : String → Option String → Bool → (String × String) × (String × String) × List String
unfolding bal_field
class_ends user (some sub_account) true =
    ((sub_account, bal_field ""), (user, bal_field ""), user ∷ sub_account ∷ [])
class_ends user (some sub_account) false =
    ((user, bal_field ""), (sub_account, bal_field ""), user ∷ sub_account ∷ [])
class_ends user none true = ((user, spot_field), (user, bal_field ""), user ∷ [])
class_ends user none false = ((user, bal_field ""), (user, spot_field), user ∷ [])

-- Whose account sendAsset debits.
pub sender_of : String → String → String
unfolding lower
sender_of sender from_sub_account =
    if str_eq from_sub_account "" then sender else lower from_sub_account

-- The transfer actions, with the arguments of their functions; agentSendAsset is sendAsset.
pub data Request (N : Type 0) : Type 0 where
  class_transfer :
      (user : String) (amount : Option N) (sub_account : Option String) (to_perp : Bool) → Request N
  send : (sender destination : String) (amount : Option N) → Request N
  spot : (sender destination token : String) (amount : Option N) → Request N
  asset :
      (sender destination source_dex destination_dex : String) (amount : Option N)
      (from_sub_account : String)
      → Request N
  to_evm : (user : String) (amount : Option N) → Request N

module _ {N : Type 0} where
  pub emit_account_update : List String → List String → Wallets N → Wallets N
  unfolding unique lower_all is_user is_venue send_updates
  emit_account_update users dexes w = record w {
    updates =
        send_updates (unique is_venue [] dexes) (unique is_user [] (lower_all users)) w.updates;
  }

  -- HSET
  unfoldable pub hset : String × String → N → Wallets N → Wallets N
  unfolding update
  hset key v w = record w { accounts = update w.accounts key (some v) }

-- `parseFloat` is an argument: none is NaN or an infinity.
module _ {N : Type 0} (parse_float : String → Option N) where
  -- An address that is empty counts as none.
  named_part : String → Option String
  named_part s = if str_eq s "" then none else some s

  pub parse_amount_with_subaccount : String → Option N × Option String
  unfolding trim lower named_part
  parse_amount_with_subaccount raw =
      let trimmed = trim raw in
      elim (find? trimmed " subaccount:") [
        | none ↦ (parse_float trimmed, none)
        | some idx ↦ (
          parse_float (trim (slice trimmed 0 idx)),
          named_part (lower (trim (slice trimmed (idx + len " subaccount:") (len trimmed)))),
        )
      ]

module _ {N : Type 0} ⦃d : Decimal N⦄ where
  -- `toFixed(6)`
  abbrev pub to_fixed : N → N
  to_fixed a = d.places_half_up a 6

  -- A missing field is read as zero.
  unfoldable pub value_at : String × String → Wallets N → N
  value_at key w = elim (w.accounts key) [ none ↦ num 0 | some v ↦ v ]

  -- A number that is finite and positive.
  abbrev pub positive : Option N → Option N
  positive none = none
  positive (some a) = if lte a (num 0) then none else some a

  pub debit : String × String → N → Wallets N → Wallets N
  unfolding value_at hset
  debit key amount w = hset key (to_fixed (sub (value_at key w) amount)) w

  -- Both balances are read before either is written.
  pub move : String × String → String × String → N → Wallets N → Wallets N
  unfolding value_at hset
  move from to amount w =
      hset to (to_fixed (add (value_at to w) amount))
        (hset from (to_fixed (sub (value_at from w) amount)) w)

  -- A move to a field that may be missing: then only the debit.
  pub move_known : String × String → String × String → N → Wallets N → Wallets N
  unfolding debit move
  move_known from to amount w = elim (w.accounts to) [
    | none ↦ debit from amount w
    | some _ ↦ move from to amount w
  ]

  -- The checks that every transfer begins with, and the balance check.
  pub transfer :
      Option N → String × String → (N → Wallets N → Wallets N) → Wallets N → Answer N × Wallets N
  unfolding value_at
  transfer amount from change w = elim (positive amount) [
    | none ↦ (error not_positive, w)
    | some a ↦
        let have = value_at from w in
        if lt have a then (error (insufficient have a), w) else (ok, change a w)
  ]

  pub usd_class_transfer :
      String → Option N × Option String → Bool → Wallets N → Answer N × Wallets N
  unfolding transfer move emit_account_update class_ends
  usd_class_transfer user (amount, sub_account) to_perp w =
      let (from, to, users) = class_ends user sub_account to_perp in
      transfer amount from (λ a w. emit_account_update users [] (move from to a w)) w

  pub usd_send : String → String → Option N → Wallets N → Answer N × Wallets N
  unfolding transfer move_known emit_account_update bal_field lower
  usd_send sender destination amount w =
      let from : String × String = (sender, bal_field "") in
      let to : String × String = (lower destination, bal_field "") in
      transfer amount from
        (λ a w. emit_account_update (sender ∷ lower destination ∷ []) [] (move_known from to a w)) w

  -- The checks come in the order of the source: the amount, the token, the balance.
  pub spot_send : String → String → String → Option N → Wallets N → Answer N × Wallets N
  unfolding transfer move_known emit_account_update lower
  spot_send sender destination token amount w =
      let from : String × String = (sender, spot_field) in
      let to : String × String = (lower destination, spot_field) in
      let tell = emit_account_update (sender ∷ destination ∷ []) [] in
      elim (positive amount) [
        | none ↦ (error not_positive, w)
        | some a ↦ elim (find? token ":") [
          | none ↦ (error bad_token, w)
          | some _ ↦
              if starts_with (lower token) "usdc:"
              then transfer amount from (λ a w. tell (move_known from to a w)) w
              else (ok, tell w)
        ]
      ]

  pub send_change : String → String → String → String → String → N → Wallets N → Wallets N
  unfolding sender_of dex_field debit move move_known emit_account_update lower
  send_change sender destination source_dex destination_dex from_sub_account a w =
      let from : String × String = (sender_of sender from_sub_account, dex_field source_dex) in
      let to : String × String = (lower destination, dex_field destination_dex) in
      if str_eq destination_dex "evm"
      then emit_account_update (sender ∷ from_sub_account ∷ []) (source_dex ∷ []) (debit from a w)
      else emit_account_update (sender ∷ from_sub_account ∷ lower destination ∷ [])
          (source_dex ∷ destination_dex ∷ [])
          (if str_eq (lower destination) (lower sender)
            then move from to a w
            else move_known from to a w)

  pub send_asset :
      String → String → String → String → Option N → String → Wallets N → Answer N × Wallets N
  unfolding transfer send_change sender_of dex_field lower
  send_asset sender destination source_dex destination_dex amount from_sub_account w =
      elim (positive amount) [
        | none ↦ (error not_positive, w)
        | some a ↦
            if str_eq (lower destination) (lower sender) && str_eq source_dex destination_dex
            then (error invalid_send, w)
            else transfer amount (sender_of sender from_sub_account, dex_field source_dex)
                (send_change sender destination source_dex destination_dex from_sub_account) w
      ]

  pub send_to_evm_with_data : String → Option N → Wallets N → Answer N × Wallets N
  unfolding transfer debit emit_account_update bal_field
  send_to_evm_with_data user amount w =
      let from : String × String = (user, bal_field "") in
      transfer amount from (λ a w. emit_account_update (user ∷ []) [] (debit from a w)) w

  pub perform : Request N → Wallets N → Answer N × Wallets N
  unfolding usd_class_transfer usd_send spot_send send_asset send_to_evm_with_data
  perform (class_transfer user amount sub_account to_perp) =
      usd_class_transfer user (amount, sub_account) to_perp
  perform (send sender destination amount) = usd_send sender destination amount
  perform (spot sender destination token amount) = spot_send sender destination token amount
  perform (asset sender destination source_dex destination_dex amount from_sub_account) =
      send_asset sender destination source_dex destination_dex amount from_sub_account
  perform (to_evm user amount) = send_to_evm_with_data user amount
