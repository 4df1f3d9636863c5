-- ===== src/Decimal/Order.antt =====
-- The order of decimals, and how the operations respect it. These laws hold of decimal.js with its
-- rounding: a result rounded to 30 digits by one mode is a monotone function of the exact result.
use hy_paper.Prelude.{
  ℕ, suc, ◌≤◌, ◌≡◌, ◌⊎◌, inl, inr, Bool-cases, true, false, arith, if◌then◌else◌,
}
use hy_paper.Decimal.{Decimal, num, add, sub, mul, lte, lt, is_zero, abs, neg, div, min, max}

pub record IsOrdered (N : Type 0) ⦃d : Decimal N⦄ : Type 0 where
  pub lte_refl : (a : N) → lte a a ≡ true
  pub lte_trans : (a b c : N) → lte a b ≡ true → lte b c ≡ true → lte a c ≡ true
  pub lte_antisymm : (a b : N) → lte a b ≡ true → lte b a ≡ true → a ≡ b
  pub lte_total : (a b : N) → lte a b ≡ false → lte b a ≡ true
  pub num_mono : (m n : ℕ) → m ≤ n → lte {N = N} (num m) (num n) ≡ true
  pub abs_lem : (a : N) → abs a ≡ (if lt a (num 0) then neg a else a)
  pub min_lem : (a b : N) → min a b ≡ (if lte a b then a else b)
  pub max_lem : (a b : N) → max a b ≡ (if lte a b then b else a)
  pub neg_mono : (a b : N) → lte a b ≡ true → lte (neg b) (neg a) ≡ true
  pub add_mono : (a b c : N) → lte a b ≡ true → lte (add a c) (add b c) ≡ true
  pub sub_mono : (a b c : N) → lte a b ≡ true → lte (sub a c) (sub b c) ≡ true
  pub mul_mono :
      (a b c : N) → lte (num 0) c ≡ true → lte a b ≡ true → lte (mul a c) (mul b c) ≡ true
  pub add_nonneg :
      (a b : N) → lte (num 0) a ≡ true → lte (num 0) b ≡ true → lte (num 0) (add a b) ≡ true
  pub sub_anti : (a b c : N) → lte a b ≡ true → lte (sub c b) (sub c a) ≡ true
  pub sub_self : (a : N) → sub a a ≡ num 0
  pub div_mono :
      (a b c : N) → lte (num 0) c ≡ true → lte a b ≡ true → lte (div a c) (div b c) ≡ true
  pub div_self : (a : N) → is_zero a ≡ false → div a a ≡ num 1
  pub div_zero : (a : N) → is_zero a ≡ false → div (num 0) a ≡ num 0
  pub num_ne_zero : (n : ℕ) → is_zero {N = N} (num (suc n)) ≡ false
  pub places_down_lte : (a : N) (k : ℕ) → lte (num 0) a ≡ true → lte (d.places_down a k) a ≡ true
  pub half_up_zero : (k : ℕ) → d.places_half_up (num 0) k ≡ num 0
  pub half_up_mono :
      (a b : N) (k : ℕ) → lte a b ≡ true → lte (d.places_half_up a k) (d.places_half_up b k) ≡ true

module _ {N : Type 0} ⦃d : Decimal N⦄ (laws : IsOrdered N) where
  open laws use {lte_refl, lte_trans, lte_antisymm, lte_total, max_lem, min_lem}

  pub lte-max_left : (a b : N) → lte a (max a b) ≡ true
  lte-max_left a b = rw max_lem (ground (arith, lte_refl a))

  pub lte-max_right : (a b : N) → lte b (max a b) ≡ true
  lte-max_right a b = rw max_lem (ground (arith, lte_refl b, lte_total a b))

  pub min-lte_left : (a b : N) → lte (min a b) a ≡ true
  min-lte_left a b = rw min_lem (ground (arith, lte_refl a, lte_total a b))

  pub min-lte_right : (a b : N) → lte (min a b) b ≡ true
  min-lte_right a b = rw min_lem (ground (arith, lte_refl b))

  pub is_zero-eq : (a : N) → is_zero a ≡ true → a ≡ num 0
  is_zero-eq a h = ground (arith, lte_antisymm a (num 0))

  -- Zero, or above it, or below it.
  pub sign-cases :
      (a : N)
      → (a ≡ num 0)
        ⊎ (((lte a (num 0) ≡ false) × (lte (num 0) a ≡ true))
            ⊎ ((lte a (num 0) ≡ true) × (lte (num 0) a ≡ false)))
  sign-cases a = elim (Bool-cases (lte a (num 0))) [
    | inl h ↦ elim (Bool-cases (lte (num 0) a)) [
      | inl k ↦ inl (lte_antisymm a (num 0) h k)
      | inr k ↦ inr (inr (h, k))
    ]
    | inr h ↦ inr (inl (h, lte_total a (num 0) h))
  ]
