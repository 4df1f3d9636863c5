-- ===== src/Twaps/Pass/Actions.antt =====
-- What matchTwaps decides for a TWAP, by its status.
use hy_paper.Prelude.{
  ℕ, ◌≡◌, refl, true, false, not, Option, none, some, inl, inr, ltb, Bool-cases, ◌||◌,
}
use hy_paper.Prelude.Maps.{nat_keys}
use hy_paper.Decimal.{Decimal, num, lte, gte, lt}
use hy_paper.Twaps.{Twap, is_running}
use hy_paper.Twaps.Pass.{
  TwapEnv, Action, drop, drop_malformed, too_soon, remaining_size, raw_slice, cut_slice,
  decimals_of, slice_action, due_action, sized_action, twap_action,
}
use hy_paper.Twaps.Sound.{IsFormed}

module _ {N : Type 0} where
  -- An action that a running TWAP with a size and times may take.
  abbrev pub Proceeds : Action N → Type 0
  Proceeds drop = ⊥
  Proceeds drop_malformed = ⊥
  Proceeds _ = Unit {0}

module _ {N : Type 0} ⦃d : Decimal N⦄ (te : TwapEnv N) where
  slice_action-Proceeds :
      (t : Twap N) (slice : N) (mid : Option N) → Proceeds (slice_action te t slice mid)
  unfolding slice_action
  slice_action-Proceeds t slice none = tt
  slice_action-Proceeds t slice (some mid) = tt

  pub dropped_action : (t : Twap N) → is_running t.status ≡ false → twap_action te t ≡ drop
  unfolding twap_action
  dropped_action t over = rw (twap_action, over) refl

  due_action-Proceeds :
      (t : Twap N) (total : N) (start end_ : ℕ) → Proceeds (due_action te t total start end_)
  unfolding due_action
  due_action-Proceeds t total start end_ =
      let k = decimals_of t in
      let slice = cut_slice (raw_slice total t.filled_size start end_ te.intake.env.now) k in
      elim (Bool-cases (lt (remaining_size total t.filled_size) (d.literal 1 k))) [
        | inl dust ↦ rw (due_action, dust) tt
        | inr left ↦ elim (Bool-cases (lte slice (num 0))) [
          | inl none_ ↦ rw (due_action, left, none_) tt
          | inr some_ ↦ rw (due_action, left, some_) (slice_action-Proceeds t slice _)
        ]
      ]

  sized_action-Proceeds :
      (t : Twap N) (total : N) (start end_ : ℕ) → Proceeds (sized_action te t total start end_)
  unfolding sized_action
  sized_action-Proceeds t total start end_ =
      elim (Bool-cases (not (ltb te.intake.env.now end_) || gte t.filled_size total)) [
        | inl over ↦ rw (sized_action, over) tt
        | inr on ↦ elim (Bool-cases (too_soon te.intake.env.now t)) [
          | inl early ↦ rw (sized_action, on, early) tt
          | inr due ↦ rw (sized_action, on, due) (due_action-Proceeds t total start end_)
        ]
      ]

  -- A running TWAP is neither dropped nor malformed.
  pub twap_action-Proceeds :
      (t : Twap N) → is_running t.status ≡ true → IsFormed t → Proceeds (twap_action te t)
  unfolding twap_action
  twap_action-Proceeds t r f =
      rw (twap_action, r, f.sized, f.starts, f.ends)
        (sized_action-Proceeds t f.total f.start f.end_)
