-- ===== src/Decimal/Ordered.antt =====
-- Inequations of exact arithmetic: the laws of the order together with those of the operations.
use hy_paper.Prelude.{◌≡◌, true, arith}
use hy_paper.Decimal.{Decimal, num, gt, lt, add, sub, lte, min, abs, neg}
use hy_paper.Decimal.Order.{IsOrdered}
use hy_paper.Decimal.Exact.{IsExact}
use hy_paper.Decimal.Ring.{neg_zero, add-sub, add-sub_cancel}

module _ {N : Type 0} ⦃d : Decimal N⦄ (order : IsOrdered N) (exact : IsExact N) where
  open order use {
    lte_trans, lte_antisymm, lte_total, abs_lem, min_lem, neg_mono, add_mono, sub_mono,
  }
  open exact use {add_comm, add_zero, mul_comm}

  pub min_left : (a b : N) → lte a b ≡ true → min a b ≡ a
  min_left a b h = ground (arith, min_lem a b)

  pub min_right : (a b : N) → lte b a ≡ true → min a b ≡ b
  min_right a b h = ground (arith, min_lem a b, lte_antisymm a b)

  pub add_mono_left : (a b c : N) → lte a b ≡ true → lte (add c a) (add c b) ≡ true
  add_mono_left a b c h = rw (add_comm c a, add_comm c b) (add_mono a b c h)

  pub add_mono_both :
      (a b c e : N) → lte a b ≡ true → lte c e ≡ true → lte (add a c) (add b e) ≡ true
  add_mono_both a b c e h k = lte_trans _ _ _ (add_mono a b c h) (add_mono_left c e b k)

  -- c ≤ b - a exactly when a + c ≤ b
  pub le-sub→add-le : (a b c : N) → lte c (sub b a) ≡ true → lte (add a c) b ≡ true
  le-sub→add-le a b c h = rw (add-sub_cancel exact a b) at (add_mono_left c (sub b a) a h)

  pub add-le→le-sub : (a b c : N) → lte (add a c) b ≡ true → lte c (sub b a) ≡ true
  add-le→le-sub a b c h = rw (add-sub exact a c) at (sub_mono (add a c) b a h)

  pub sub-le→le-add : (a b c : N) → lte (sub b a) c ≡ true → lte b (add a c) ≡ true
  sub-le→le-add a b c h = rw (add-sub_cancel exact a b) at (add_mono_left (sub b a) c a h)

  pub abs-pos : (a : N) → gt a (num 0) ≡ true → abs a ≡ a
  abs-pos a h = ground (arith, abs_lem a, lte_total a (num 0))

  pub abs-neg : (a : N) → lt a (num 0) ≡ true → abs a ≡ neg a
  abs-neg a h = ground (arith, abs_lem a)

  pub abs_nonneg : (a : N) → lte (num 0) (abs a) ≡ true
  abs_nonneg a = ground (arith, abs_lem a, neg_mono a (num 0), neg_zero exact, lte_total (num 0) a)
