-- ===== src/Intake/Cancel/Count.antt =====
-- A cancellation of src/engine/order.ts leaves fewer open orders.
use Prim.Native.String.{String}
use hy_paper.Prelude.{
  ℕ, suc, ◌≤◌, ◌<◌, ◌≡◌, refl, sym, ap, ◌∙◌, Bool, true, false, inl, inr, none, some, List, [], ◌∷◌,
  arith, ◌==◌, if◌then◌else◌, Bool-cases,
}
use hy_paper.Prelude.Maps.{nat_keys, contains}
use hy_paper.Orders.{is_open}
use hy_paper.Intake.Cancel.Only.{CancelView, Closed, CancelsOnly}

module _ {N : Type 0} where
  unfoldable pub live : CancelView N → ℕ → Bool
  live b j = elim (b.orders j) [ none ↦ false | some o ↦ is_open o.status ]

  -- How many of the listed orders are open.
  unfoldable pub count_open : List ℕ → CancelView N → ℕ
  unfolding live
  count_open [] b = 0
  count_open (j ∷ js) b = let rest = count_open js b in if live b j then suc rest else rest

  -- A list that has the number of every open order.
  unfoldable pub Covers : List ℕ → CancelView N → Type 0
  unfolding live
  Covers all b = (j : ℕ) → live b j ≡ true → contains j all ≡ true

  Closed-live :
      (user : String) (b c : CancelView N) (j : ℕ)
      → Closed user j b c
      → (live b j ≡ true) × (live c j ≡ false)
  unfolding live
  Closed-live user b c j h = (rw (h.found, live) h.was_open, rw (h.stored, live, h.closed) refl)

  pub live_after :
      (user : String) (b c : CancelView N) (j : ℕ)
      → CancelsOnly user b c
      → live c j ≡ true
      → live b j ≡ true
  unfolding live
  live_after user b c j h now = elim (h.each j) [
    | inl same ↦ rw (live, ← same) now
    | inr closed ↦ (Closed-live user b c j closed).0
  ]

  pub count_open_le :
      (user : String) (all : List ℕ) (b c : CancelView N)
      → CancelsOnly user b c
      → count_open all c ≤ count_open all b
  unfolding count_open
  count_open_le user [] b c h = omega arith
  count_open_le user (j ∷ js) b c h =
      ground (arith, live_after user b c j h, count_open_le user js b c h)

  pub count_open_lt :
      (user : String) (all : List ℕ) (b c : CancelView N) (j : ℕ)
      → CancelsOnly user b c
      → contains j all ≡ true
      → live b j ≡ true
      → live c j ≡ false
      → count_open all c < count_open all b
  unfolding count_open contains
  count_open_lt user [] b c j h mem was now = ground (arith, mem)
  count_open_lt user (k ∷ ks) b c j h mem was now = elim (Bool-cases (j == k)) [
    | inl e ↦
        let same : j ≡ k = (nat_keys.beq_iff j k).0 e in
        let was_k : live b k ≡ true = ap (live b) (sym same) ∙ was in
        let now_k : live c k ≡ false = ap (live c) (sym same) ∙ now in
        rw (was_k, now_k) (ground (arith, count_open_le user ks b c h))
    | inr ne ↦
        let rest = count_open_lt user ks b c j h (ground (arith, mem, ne)) was now in
        ground (arith, live_after user b c k h, rest)
  ]

  pub still-Covers :
      (user : String) (all : List ℕ) (b c : CancelView N)
      → CancelsOnly user b c
      → Covers all b
      → Covers all c
  unfolding Covers
  still-Covers user all b c h covers j now = covers j (live_after user b c j h now)
