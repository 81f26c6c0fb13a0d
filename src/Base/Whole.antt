-- ===== src/Base/Whole.antt =====
-- Whole amounts: natural numbers as a model of `Base.Float`, on which runs can be computed. A
-- literal is rounded to its numerator, a quotient down, and a difference stops at 0.
use native.Mathlib.Nat.{mul_comm, mul-add, div-lt_iff_lt-mul}
use generik_dbhistogram_data.Base.{
  ℕ, zero, suc, ◌+◌, ◌*◌, ◌/◌, ◌-◌, ◌<◌, ◌≡◌, true, false, ltb, arith,
}
use generik_dbhistogram_data.Base.Float.{Float, IsOrderedFloat}

instance unfoldable pub whole : Float ℕ
whole = record {
  lit = λ n k. n;
  add = λ a b. a + b;
  sub = λ a b. a - b;
  mul = λ a b. a * b;
  div = λ a b. a / b;
  lt = ltb;
  trunc = λ a. a;
  ceil = λ a. a;
}

mul_unit_le : (a b : ℕ) → ltb 1 b ≡ false → ltb a (a * b) ≡ false
mul_unit_le a zero h = ground arith
mul_unit_le a (suc zero) h = ground arith
mul_unit_le a (suc (suc b)) h = ground arith

mul_more_ge : (a b : ℕ) → ltb (a * (1 + b)) a ≡ false
mul_more_ge a b = ground (arith, mul-add a 1 b)

positive : (b : ℕ) → ltb 0 b ≡ true → 0 < b
positive b p = ground arith

below_double : (a b : ℕ) → ltb b a ≡ false → ltb 0 b ≡ true → a < 2 * b
below_double a b h p = ground arith

div_unit_le : (a b : ℕ) → ltb b a ≡ false → ltb 0 b ≡ true → ltb 1 (a / b) ≡ false
div_unit_le a b h p =
    ground
      (arith, (div-lt_iff_lt-mul {k = b} {x = a} {y = 2} (positive b p)).1 (below_double a b h p))

pub whole-IsOrderedFloat : IsOrderedFloat whole
unfolding whole
whole-IsOrderedFloat = record {
  lt_irrefl = λ a. ground arith;
  lt_trans = λ a b c h k. ground arith;
  antisym = λ a b h k. ground arith;
  lit_nonneg = λ n k. ground arith;
  lit_pos = λ n k h. ground arith;
  add_nonneg = λ a b h k. ground arith;
  add_pos = λ a b h k. ground arith;
  sub_nonneg = λ a b h. ground arith;
  mul_nonneg = λ a b h k. ground arith;
  mul_le_left = λ a b h k. mul_unit_le a b k;
  mul_comm = mul_comm;
  div_nonneg = λ a b h k. ground arith;
  div_le_one = div_unit_le;
  sub_le_left = λ a b h. ground arith;
  mul_ge_left = λ a b h k. mul_more_ge a b;
  le_trans = λ a b c h k. ground arith;
}
