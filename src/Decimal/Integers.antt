-- ===== src/Decimal/Integers.antt =====
-- Whole numbers as decimals: they meet the laws, so what the theorems suppose of decimal.js can be met.
-- Quotients and fractional literals are cut off.
use hy_paper.Prelude.{
  ℕ, zero, suc, ◌+◌, ◌-◌, ◌<◌, ◌*◌, ◌/◌, ◌^◌, ◌≤◌, ◌≡◌, refl, ap, true, false, arith, if◌then◌else◌,
  leb→le, ltb, le→leb,
}
use hy_paper.Prelude.Int.{
  ℤ, pos, negsuc, pos_part, neg_part, neg_ℤ, ◌+ℤ◌, ◌-ℤ◌, ◌*ℤ◌, div_ℤ, leb_ℤ, eq_of_parts, +ℤ_parts,
  -ℤ_parts, int_sums, int_products, +ℤ_comm, +ℤ_assoc, *ℤ_comm, *ℤ_assoc,
}
use native.Mathlib.Nat.{
  mul-le-mul, le_refl, mul-div_cancel, div_self, le-div_iff_mul-le, div-mul-le_self, le_trans,
}
use hy_paper.Decimal.{Decimal, is_zero}
use hy_paper.Decimal.Order.{IsOrdered}
use hy_paper.Decimal.Exact.{IsExact}

abbrev abs_ℤ : ℤ → ℤ
abs_ℤ (pos n) = pos n
abs_ℤ (negsuc n) = neg_ℤ (negsuc n)

-- The digits of a number below 10^40.
abbrev digits_ℕ : ℕ → ℕ → ℕ
digits_ℕ zero n = 1
digits_ℕ (suc f) n = let rest = digits_ℕ f (n / 10) in if ltb n 10 then 1 else suc rest

instance abbrev pub integers : Decimal ℤ
integers = record {
  literal = λ m k. pos (m / 10 ^ k);
  plus = ◌+ℤ◌;
  minus = ◌-ℤ◌;
  times = ◌*ℤ◌;
  div_by = div_ℤ;
  negated = neg_ℤ;
  absolute = abs_ℤ;
  least = λ a b. if leb_ℤ a b then a else b;
  greatest = λ a b. if leb_ℤ a b then b else a;
  less_or_equal = leb_ℤ;
  places_down = λ a k. a;
  places_half_up = λ a k. a;
  floor = λ a. a;
  digits = λ a. digits_ℕ 40 (pos_part a + neg_part a);
}

leb_ℤ-mul : (a b c : ℤ) → leb_ℤ (pos 0) c ≡ true → leb_ℤ a b ≡ true → leb_ℤ (a *ℤ c) (b *ℤ c) ≡ true
leb_ℤ-mul a b (pos n) p h =
    le→leb _ _ (simp int_products (omega (arith, mul-le-mul (leb→le _ _ h) (le_refl n))))
leb_ℤ-mul a b (negsuc n) p h = ground arith

leb_ℤ-add : (a b c : ℤ) → leb_ℤ a b ≡ true → leb_ℤ (a +ℤ c) (b +ℤ c) ≡ true
leb_ℤ-add a b c h = le→leb _ _ (omega (arith, leb→le _ _ h, +ℤ_parts a c, +ℤ_parts b c))

leb_ℤ-sub : (a b c : ℤ) → leb_ℤ a b ≡ true → leb_ℤ (a -ℤ c) (b -ℤ c) ≡ true
leb_ℤ-sub a b c h = le→leb _ _ (omega (arith, leb→le _ _ h, -ℤ_parts a c, -ℤ_parts b c))

+ℤ_neg : (a : ℤ) → a +ℤ neg_ℤ a ≡ pos 0
+ℤ_neg a = eq_of_parts _ _ (omega int_sums)

-ℤ_lem : (a b : ℤ) → a -ℤ b ≡ a +ℤ neg_ℤ b
-ℤ_lem a b = eq_of_parts _ _ (omega int_sums)

*ℤ_distrib : (a b c : ℤ) → a *ℤ (b +ℤ c) ≡ (a *ℤ b) +ℤ (a *ℤ c)
*ℤ_distrib a b c = eq_of_parts _ _ (
    simp int_products (
      omega (
        arith,
        simp int_products at (+ℤ_parts (a *ℤ b) (a *ℤ c)),
        ap (λ (t : ℕ). pos_part a * t) (+ℤ_parts b c),
        ap (λ (t : ℕ). neg_part a * t) (+ℤ_parts b c),
      )))

num_mono : (m n : ℕ) → m ≤ n → leb_ℤ (pos (m / 10 ^ 0)) (pos (n / 10 ^ 0)) ≡ true
num_mono m n h = ground arith

neg_part-le : (m n : ℕ) → n ≤ m → leb_ℤ (neg_ℤ (pos m)) (neg_ℤ (pos n)) ≡ true
neg_part-le m n h = ground arith

div-le-div_right : {m n : ℕ} (k : ℕ) → m ≤ n → m / k ≤ n / k
div-le-div_right zero h = omega arith
div-le-div_right {m} (suc k) h =
    (le-div_iff_mul-le (omega arith)).1 (le_trans (div-mul-le_self m (suc k)) h)

div_ℤ_mono :
    (a b c : ℤ) → leb_ℤ (pos 0) c ≡ true → leb_ℤ a b ≡ true → leb_ℤ (div_ℤ a c) (div_ℤ b c) ≡ true
unfolding div_ℤ
div_ℤ_mono (pos m) (pos n) (pos k) p h =
    ground (arith, div-le-div_right {m = m} {n = n} k (leb→le m n (ground arith)))
div_ℤ_mono (negsuc m) (pos n) (pos k) p h = ground arith
div_ℤ_mono (pos m) (negsuc n) (pos k) p h = ground arith
div_ℤ_mono (negsuc m) (negsuc n) (pos k) p h = neg_part-le _ _ (div-le-div_right k (ground arith))
div_ℤ_mono a b (negsuc k) p h = ground arith

div_ℤ_self : (a : ℤ) → is_zero a ≡ false → div_ℤ a a ≡ pos 1
unfolding div_ℤ
div_ℤ_self (pos zero) h = ground arith
div_ℤ_self (pos (suc n)) h = ground (arith, div_self {n = suc n})
div_ℤ_self (negsuc n) h = ground (arith, div_self {n = suc n})

div_ℤ_zero : (a : ℤ) → is_zero a ≡ false → div_ℤ (pos 0) a ≡ pos 0
unfolding div_ℤ
div_ℤ_zero (pos n) h = ground arith
div_ℤ_zero (negsuc n) h = ground arith

pub integers-IsOrdered : IsOrdered ℤ
integers-IsOrdered = record {
  lte_refl = λ a. ground arith;
  lte_trans = λ a b c h k. ground arith;
  lte_antisymm = λ a b h k. ground arith;
  lte_total = λ a b h. ground arith;
  num_mono = num_mono;
  abs_lem = λ a. ground arith;
  min_lem = λ a b. refl;
  max_lem = λ a b. refl;
  neg_mono = λ a b h. ground arith;
  add_mono = leb_ℤ-add;
  sub_mono = leb_ℤ-sub;
  mul_mono = leb_ℤ-mul;
  add_nonneg = λ a b h k. le→leb _ _ (omega (arith, leb→le _ _ h, leb→le _ _ k, +ℤ_parts a b));
  sub_anti = λ a b c h. le→leb _ _ (omega (arith, leb→le _ _ h, -ℤ_parts c a, -ℤ_parts c b));
  sub_self = λ a. eq_of_parts _ _ (omega int_sums);
  div_mono = div_ℤ_mono;
  div_self = div_ℤ_self;
  div_zero = div_ℤ_zero;
  num_ne_zero = λ n. ground arith;
  places_down_lte = λ a k h. ground arith;
  half_up_zero = λ k. refl;
  half_up_mono = λ a b k h. h;
}

neg_ℤ-eq : (n : ℕ) → 0 < n → neg_ℤ (pos n) ≡ negsuc (n - 1)
neg_ℤ-eq n h = ground arith

div_ℤ-mul : (q b : ℤ) → is_zero b ≡ false → div_ℤ (q *ℤ b) b ≡ q
unfolding div_ℤ ◌*ℤ◌
div_ℤ-mul (pos m) (pos zero) h = ground arith
div_ℤ-mul (pos m) (pos (suc n)) h = ground (arith, mul-div_cancel m {n = suc n})
div_ℤ-mul (pos zero) (negsuc n) h = ground arith
div_ℤ-mul (pos (suc m)) (negsuc n) h =
    ground (arith, mul-div_cancel (suc m) {n = suc n}, neg_ℤ-eq (suc m * suc n))
div_ℤ-mul (negsuc m) (pos zero) h = ground arith
div_ℤ-mul (negsuc m) (pos (suc n)) h =
    ground (arith, mul-div_cancel (suc m) {n = suc n}, neg_ℤ-eq (suc m * suc n))
div_ℤ-mul (negsuc m) (negsuc n) h = ground (arith, mul-div_cancel (suc m) {n = suc n})

pub integers-IsExact : IsExact ℤ
integers-IsExact = record {
  add_comm = +ℤ_comm;
  add_assoc = +ℤ_assoc;
  add_zero = λ a. eq_of_parts _ _ (omega int_sums);
  add_neg = +ℤ_neg;
  sub_lem = -ℤ_lem;
  mul_comm = *ℤ_comm;
  mul_assoc = *ℤ_assoc;
  mul_one = λ a. eq_of_parts _ _ (simp int_products (omega arith));
  mul_add = *ℤ_distrib;
  div_lem = λ a b q h e. rw (← e) (div_ℤ-mul q b h);
}
