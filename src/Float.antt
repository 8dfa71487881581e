-- ===== src/Float.antt =====
-- Python floats. The language has none, so the type and the operations that the program uses are a
-- parameter, with the order of the floats other than NaN as its law.
use pysearch.Base.{ℕ, ◌+◌, ◌-◌, ◌*◌, ◌/◌, Bool, true, false, ◌||◌, not, ◌≡◌, ltb, arith}

pub record Float : Type 1 where
  pub F : Type 0
  -- float(n), and the float of the integer difference n - m
  pub of_nat : ℕ → F
  pub of_difference : ℕ → ℕ → F
  -- the literal 0.5
  pub one_half : F
  pub add : F → F → F
  pub sub : F → F → F
  pub mul : F → F → F
  pub div : F → F → F
  pub log : F → F
  pub lt : F → F → Bool

-- x == 0.0
abbrev pub is_zero : (fl : Float) → fl.F → Bool
is_zero fl x = not (fl.lt x (fl.of_nat 0) || fl.lt (fl.of_nat 0) x)

-- `<` is a strict weak order on the values that are compared, as IEEE 754 has it without NaN.
pub record IsOrdered (fl : Float) : Type 0 where
  pub asym : (a b : fl.F) → fl.lt a b ≡ true → fl.lt b a ≡ false
  pub between : (a b c : fl.F) → fl.lt a b ≡ true → (fl.lt a c || fl.lt c b) ≡ true

-- Numbers that meet the law, to run the model on: values are natural numbers, and `log` is dropped.
abbrev pub naturals : Float
naturals = record {
  F = ℕ;
  of_nat = λ n. n;
  of_difference = λ n m. n - m;
  one_half = 0;
  add = λ a b. a + b;
  sub = λ a b. a - b;
  mul = λ a b. a * b;
  div = λ a b. a / b;
  log = λ a. a;
  lt = ltb;
}

ltb_between : (a b c : ℕ) → ltb a b ≡ true → (ltb a c || ltb c b) ≡ true
ltb_between a b c h = ground arith

ltb_asym : (a b : ℕ) → ltb a b ≡ true → ltb b a ≡ false
ltb_asym a b h = ground arith

pub naturals-IsOrdered : IsOrdered naturals
naturals-IsOrdered = record { asym = ltb_asym; between = ltb_between }
