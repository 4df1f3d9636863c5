-- ===== src/Decimal/Exact.antt =====
-- Exact arithmetic of decimals: sums, differences, products and quotients that need no more than the
-- 30 significant digits which src/utils/math.ts sets as the precision. decimal.js documents that such
-- results are not rounded.
use hy_paper.Prelude.{◌≡◌, false}
use hy_paper.Decimal.{Decimal, num, add, sub, mul, div, neg, is_zero}

pub record IsExact (N : Type 0) ⦃d : Decimal N⦄ : Type 0 where
  pub add_comm : (a b : N) → add a b ≡ add b a
  pub add_assoc : (a b c : N) → add (add a b) c ≡ add a (add b c)
  pub add_zero : (a : N) → add a (num 0) ≡ a
  pub add_neg : (a : N) → add a (neg a) ≡ num 0
  pub sub_lem : (a b : N) → sub a b ≡ add a (neg b)
  pub mul_comm : (a b : N) → mul a b ≡ mul b a
  pub mul_assoc : (a b c : N) → mul (mul a b) c ≡ mul a (mul b c)
  pub mul_one : (a : N) → mul a (num 1) ≡ a
  pub mul_add : (a b c : N) → mul a (add b c) ≡ add (mul a b) (mul a c)
  -- a quotient that is a decimal is found
  pub div_lem : (a b q : N) → is_zero b ≡ false → mul q b ≡ a → div a b ≡ q
