-- ===== src/Floats.antt =====
-- The floating-point numbers, which the hardware and libc implement: a type and the operations
-- that the program uses. A 32-bit float is its bit pattern. No law of arithmetic is assumed.
use galileo_terremoti.Base.{
  ℕ, ◌+◌, ◌-◌, ◌*◌, ◌/◌, ◌%◌, ◌^◌, Bool, Bytes, ltb, ◌==◌, decimal, read_digits,
}

pub record Doubles : Type 1 where
  pub Double : Type 0
  pub of_nat : ℕ → Double
  pub of_float : ℕ → Double
  pub to_float : Double → ℕ
  pub add : Double → Double → Double
  pub sub : Double → Double → Double
  pub mul : Double → Double → Double
  pub div : Double → Double → Double
  -- `pow`, with a whole exponent.
  pub pow : Double → ℕ → Double
  pub sqrt : Double → Double
  pub lt : Double → Double → Bool
  pub eq : Double → Double → Bool
  -- `%f` and `atof`.
  pub print : Double → Bytes
  pub scan : Bytes → Double

-- Whole numbers in their place, for tests.
abbrev pub whole : Doubles
whole = record {
  Double = ℕ;
  of_nat = λ n. n;
  of_float = λ n. n;
  to_float = λ x. x % 2 ^ 32;
  add = λ x y. x + y;
  sub = λ x y. x - y;
  mul = λ x y. x * y;
  div = λ x y. x / y;
  pow = λ x n. x ^ n;
  sqrt = λ x. x / 2;
  lt = ltb;
  eq = λ x y. x == y;
  print = decimal;
  scan = λ s. read_digits 0 s;
}
