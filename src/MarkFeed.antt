-- ===== src/MarkFeed.antt =====
-- src/worker/mark-feed.ts: the mark of a coin, and whether it is fresh enough to trade on.
use hy_paper.Prelude.{ℕ, ◌-◌, ◌||◌, Option, none, some, if◌then◌else◌, ltb, ◌==◌}
use hy_paper.Decimal.{Decimal, num, lte}

abbrev pub mark_fresh_ms : ℕ
mark_fresh_ms = 15_000

-- `market:ctx:{coin}`, the two fields of the mark.
pub record MarkCtx (N : Type 0) : Type 0 where
  pub mark_px : Option N
  pub mark_ts : Option ℕ

pub record MarkQuote (N : Type 0) : Type 0 where
  pub px : N
  pub ts : ℕ

stamp : Option ℕ → ℕ
stamp none = 0
stamp (some ts) = ts

module _ {N : Type 0} ⦃d : Decimal N⦄ where
  pub get_mark : MarkCtx N → Option (MarkQuote N)
  unfolding stamp
  get_mark c = elim c.mark_px [
    | none ↦ none
    | some px ↦ if lte px (num 0) then none else some (record { px = px; ts = stamp c.mark_ts })
  ]

  unfoldable pub get_fresh_mark : MarkCtx N → ℕ → Option N
  unfolding get_mark
  get_fresh_mark c now = elim (get_mark c) [
    | none ↦ none
    | some m ↦ if m.ts == 0 || ltb mark_fresh_ms (now - m.ts) then none else some m.px
  ]
