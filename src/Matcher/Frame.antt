-- ===== src/Matcher/Frame.antt =====
-- What the writes of a fill in src/worker/order-matcher.ts do not touch.
use Prim.Native.String.{String}
use hy_paper.Prelude.{ℕ, ◌≡◌, ◌∙◌, Option, List, inl, inr, Bool-cases}
use hy_paper.Prelude.Maps.{nat_keys, string_keys, pair_keys}
use hy_paper.Decimal.{Decimal, is_zero, neg}
use hy_paper.Fill.{new_szi}
use hy_paper.Orders.{Order, Position}
use hy_paper.Store.{Store, credit}
use hy_paper.Env.{Env}
use hy_paper.NextPosition.{current_szi}
use hy_paper.Matcher.{credit_nonzero, debit_nonzero, write_position, write_balance}

module _ {N : Type 0} ⦃d : Decimal N⦄ {X : Type 0} (get : Store N → X) where
  credit_nonzero-keeps :
      (account : String × String) (amount : N)
      → ((amount : N) (s : Store N) → get (credit account amount s) ≡ get s)
      → (s : Store N) → get (credit_nonzero account amount s) ≡ get s
  unfolding credit_nonzero
  credit_nonzero-keeps account amount h s = elim (Bool-cases (is_zero amount)) [
    | inl z ↦ rw (z, credit_nonzero)
    | inr z ↦ rw (z, credit_nonzero) (h amount s)
  ]

  pub debit_nonzero-keeps :
      (account : String × String) (amount : N)
      → ((amount : N) (s : Store N) → get (credit account amount s) ≡ get s)
      → (s : Store N) → get (debit_nonzero account amount s) ≡ get s
  unfolding debit_nonzero
  debit_nonzero-keeps account amount h s = elim (Bool-cases (is_zero amount)) [
    | inl z ↦ rw (z, debit_nonzero)
    | inr z ↦ rw (z, debit_nonzero) (h (neg amount) s)
  ]

  -- What no credit changes, no payment changes.
  pub write_balance-keeps :
      (account : String × String) (pnl fee : N)
      → ((amount : N) (s : Store N) → get (credit account amount s) ≡ get s)
      → (s : Store N) → get (write_balance account pnl fee s) ≡ get s
  unfolding write_balance
  write_balance-keeps account pnl fee h s =
      debit_nonzero-keeps account fee h (credit_nonzero account pnl s)
      ∙ credit_nonzero-keeps account pnl h s

  -- What does not lie in the positions and their sets, the write of a position keeps.
  pub write_position-keeps :
      (env : Env N) (o : Order N) (sz px : N)
      → ((p : String × ℕ → Option (Position N)) (a : String × String → List ℕ)
            (h : List (String × String)) (s : Store N)
          → get (record s { positions = p; position_assets = a; position_holders = h }) ≡ get s)
      → (s : Store N) → get (write_position env o sz px s) ≡ get s
  unfolding write_position
  write_position-keeps env o sz px h s =
      elim (Bool-cases
        (is_zero (new_szi o.is_buy sz (current_szi (s.positions (o.user_id, o.asset)))))) [
          | inl z ↦ rw (z, write_position) (h _ _ _ s)
          | inr z ↦ rw (z, write_position) (h _ _ _ s)
        ]
