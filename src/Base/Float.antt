-- ===== src/Base/Float.antt =====
-- Python's floats. There are none in the logic, so the type of numbers and its operations are a
-- parameter of every definition that computes with prices and amounts. `IsOrderedFloat` is what the
-- proofs use: IEEE arithmetic rounds monotonically, so these hold of finite floats, where 0.0 and
-- -0.0 are taken as one number. Overflow to infinity and NaN are outside of it.
use generik_dbhistogram_data.Base.{ℕ, ◌<◌, ◌≡◌, Bool, true, false, not, if◌then◌else◌}

pub record Float (A : Type 0) : Type 0 where
  -- the literal n / 10 ^ k
  pub lit : ℕ → ℕ → A
  pub add : A → A → A
  pub sub : A → A → A
  pub mul : A → A → A
  pub div : A → A → A
  pub lt : A → A → Bool
  -- `float(int(a))` and `float(math.ceil(a))`
  pub trunc : A → A
  pub ceil : A → A

module _ {A : Type 0} ⦃F : Float A⦄ where
  abbrev pub lit : ℕ → ℕ → A
  lit = F.lit

  abbrev pub add : A → A → A
  add = F.add

  abbrev pub sub : A → A → A
  sub = F.sub

  abbrev pub mul : A → A → A
  mul = F.mul

  abbrev pub div : A → A → A
  div = F.div

  abbrev pub trunc : A → A
  trunc = F.trunc

  abbrev pub ceil : A → A
  ceil = F.ceil

  -- `a < b`, and `a <= b`, which is its negation the other way round where no operand is NaN
  abbrev pub lt : A → A → Bool
  lt = F.lt

  abbrev pub le : A → A → Bool
  le a b = not (F.lt b a)

  -- `max(a, b)` and `min(a, b)`: the first argument, unless the second is beyond it
  abbrev pub fmax : A → A → A
  fmax a b = if F.lt a b then b else a

  abbrev pub fmin : A → A → A
  fmin a b = if F.lt b a then b else a

pub record IsOrderedFloat {A : Type 0} (F : Float A) : Type 0 where
  pub lt_irrefl : (a : A) → F.lt a a ≡ false
  pub lt_trans : (a b c : A) → F.lt a b ≡ true → F.lt b c ≡ true → F.lt a c ≡ true
  pub antisym : (a b : A) → F.lt a b ≡ false → F.lt b a ≡ false → a ≡ b
  pub lit_nonneg : (n k : ℕ) → F.lt (F.lit n k) (F.lit 0 0) ≡ false
  pub lit_pos : (n k : ℕ) → 0 < n → F.lt (F.lit 0 0) (F.lit n k) ≡ true
  pub add_nonneg :
      (a b : A)
      → F.lt a (F.lit 0 0) ≡ false
      → F.lt b (F.lit 0 0) ≡ false
      → F.lt (F.add a b) (F.lit 0 0) ≡ false
  pub add_pos :
      (a b : A)
      → F.lt a (F.lit 0 0) ≡ false
      → F.lt (F.lit 0 0) b ≡ true
      → F.lt (F.lit 0 0) (F.add a b) ≡ true
  pub sub_nonneg : (a b : A) → F.lt a b ≡ false → F.lt (F.sub a b) (F.lit 0 0) ≡ false
  pub mul_nonneg :
      (a b : A)
      → F.lt a (F.lit 0 0) ≡ false
      → F.lt b (F.lit 0 0) ≡ false
      → F.lt (F.mul a b) (F.lit 0 0) ≡ false
  pub mul_le_left :
      (a b : A)
      → F.lt a (F.lit 0 0) ≡ false
      → F.lt (F.lit 1 0) b ≡ false
      → F.lt a (F.mul a b) ≡ false
  pub mul_comm : (a b : A) → F.mul a b ≡ F.mul b a
  pub div_nonneg :
      (a b : A)
      → F.lt a (F.lit 0 0) ≡ false
      → F.lt (F.lit 0 0) b ≡ true
      → F.lt (F.div a b) (F.lit 0 0) ≡ false
  pub div_le_one :
      (a b : A)
      → F.lt b a ≡ false
      → F.lt (F.lit 0 0) b ≡ true
      → F.lt (F.lit 1 0) (F.div a b) ≡ false
  pub sub_le_left : (a b : A) → F.lt b (F.lit 0 0) ≡ false → F.lt a (F.sub a b) ≡ false
  pub mul_ge_left :
      (a b : A)
      → F.lt a (F.lit 0 0) ≡ false
      → F.lt b (F.lit 0 0) ≡ false
      → F.lt (F.mul a (F.add (F.lit 1 0) b)) a ≡ false
  pub le_trans : (a b c : A) → F.lt b a ≡ false → F.lt c b ≡ false → F.lt c a ≡ false
