-- ===== src/Decimal.antt =====
-- The arithmetic of src/utils/math.ts over decimal.js, and what that package documents of it.
-- A numeric string stands for the decimal that `new Decimal` reads from it.
pub mod Order
pub mod Exact
pub mod Ring
pub mod Ordered
pub mod Integers
use hy_paper.Prelude.{ℕ, Bool, not, ◌&&◌}

-- The methods of decimal.js that the source calls, on finite decimals. One comparison stands for
-- the five that the package documents by one order.
pub record Decimal (N : Type 0) : Type 0 where
  -- `literal m k` is the number m / 10^k, so a literal of the source
  pub literal : ℕ → ℕ → N
  pub plus : N → N → N
  pub minus : N → N → N
  pub times : N → N → N
  pub div_by : N → N → N
  pub negated : N → N
  pub absolute : N → N
  pub least : N → N → N
  pub greatest : N → N → N
  pub less_or_equal : N → N → Bool
  -- `toDecimalPlaces` with ROUND_DOWN and with ROUND_HALF_UP, and `floor`
  pub places_down : N → ℕ → N
  pub places_half_up : N → ℕ → N
  pub floor : N → N
  -- how many digits `toFixed` prints of a whole number, its sign left off
  pub digits : N → ℕ

module _ {N : Type 0} ⦃d : Decimal N⦄ where
  abbrev pub num : ℕ → N
  num n = d.literal n 0

  abbrev pub add : N → N → N
  add a b = d.plus a b

  abbrev pub sub : N → N → N
  sub a b = d.minus a b

  abbrev pub mul : N → N → N
  mul a b = d.times a b

  abbrev pub div : N → N → N
  div a b = d.div_by a b

  abbrev pub lte : N → N → Bool
  lte a b = d.less_or_equal a b

  abbrev pub gt : N → N → Bool
  gt a b = not (d.less_or_equal a b)

  abbrev pub lt : N → N → Bool
  lt a b = not (d.less_or_equal b a)

  abbrev pub gte : N → N → Bool
  gte a b = d.less_or_equal b a

  abbrev pub is_zero : N → Bool
  is_zero a = d.less_or_equal a (d.literal 0 0) && d.less_or_equal (d.literal 0 0) a

  abbrev pub abs : N → N
  abs a = d.absolute a

  abbrev pub neg : N → N
  neg a = d.negated a

  abbrev pub min : N → N → N
  min a b = d.least a b

  abbrev pub max : N → N → N
  max a b = d.greatest a b

  abbrev pub round_to_decimals : N → ℕ → N
  round_to_decimals a k = d.places_down a k
