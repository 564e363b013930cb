-- ===== src/Base/Decimal.antt =====
-- Decimal text: what `%u`, `%i` and `%lu` print for a number that is not negative, and what
-- `atoi` and `atol` read where no sign and no blank stands in front.
use mathlib.Core.List.{append_assoc, [], ◌∷◌, ◌++◌}
use mathlib.Core.Path.{◌≡◌, refl}
use mathlib.Core.Bool.{Bool, true, ◌&&◌}
use mathlib.Core.Logic.{inl, inr}
use Prim.Native.Nat.{ℕ, zero, suc, ◌+◌, ◌-◌, ◌*◌, ◌/◌, ◌%◌, ◌<◌, ◌^◌, ◌≤◌}
use native.Mathlib.Omega.{arith}
use galileo_terremoti.Base.Tests.{ltb, leb, if◌then◌else◌, Bool-cases}
use galileo_terremoti.Base.Words.{Bytes}
use galileo_terremoti.Base.Lists.{length, length-append}

abbrev pub is_digit : ℕ → Bool
is_digit c = leb b'0' c && leb c b'9'

-- The number of rounds is at most the number itself and one, so `suc n` is fuel enough.
unfoldable pub decimal_fuel : ℕ → ℕ → Bytes
decimal_fuel zero n = []
decimal_fuel (suc f) n =
    let rest = decimal_fuel f (n / 10) ++ (b'0' + n % 10) ∷ [] in
    if ltb n 10 then (b'0' + n) ∷ [] else rest

unfoldable pub decimal : ℕ → Bytes
unfolding decimal_fuel
decimal n = decimal_fuel (suc n) n

-- The digits in front, added to what was read before.
unfoldable pub read_digits : ℕ → Bytes → ℕ
read_digits acc [] = acc
read_digits acc (c ∷ cs) =
    let more = read_digits (acc * 10 + (c - b'0')) cs in if is_digit c then more else acc

pub read_digits_digit :
    (acc d : ℕ) (rest : Bytes)
    → d < 10
    → read_digits acc ((b'0' + d) ∷ rest) ≡ read_digits (acc * 10 + d) rest
unfolding read_digits
read_digits_digit acc d rest h = ground arith

read_digits-decimal_fuel :
    (f n : ℕ) (rest : Bytes) → n < f → read_digits 0 (decimal_fuel f n ++ rest) ≡ read_digits n rest
unfolding decimal_fuel
read_digits-decimal_fuel zero n rest h = elim h [ ]
read_digits-decimal_fuel (suc f) n rest h = elim (Bool-cases (ltb n 10)) [
  | inl small ↦ rw small (ground (arith, read_digits_digit 0 n rest))
  | inr large ↦
      rw (large, append_assoc)
        (ground (
          arith,
          read_digits-decimal_fuel f (n / 10) ((b'0' + n % 10) ∷ rest),
          read_digits_digit (n / 10) (n % 10) rest,
        ))
]

-- A printed number is read back, and the reading goes on behind it.
pub read_digits-decimal :
    (n : ℕ) (rest : Bytes) → read_digits 0 (decimal n ++ rest) ≡ read_digits n rest
unfolding decimal
read_digits-decimal n rest = read_digits-decimal_fuel (suc n) n rest (omega arith)

abbrev pub AreDigits : Bytes → Type 0
AreDigits [] = Unit {0}
AreDigits (c ∷ cs) = (is_digit c ≡ true) × AreDigits cs

AreDigits-concat :
    (cs : Bytes) (c : ℕ) → AreDigits cs → is_digit c ≡ true → AreDigits (cs ++ c ∷ [])
AreDigits-concat [] c h d = (d, tt)
AreDigits-concat (x ∷ cs) c h d = (h.0, AreDigits-concat cs c h.1 d)

decimal_fuel-AreDigits : (f n : ℕ) → AreDigits (decimal_fuel f n)
unfolding decimal_fuel
decimal_fuel-AreDigits zero n = tt
decimal_fuel-AreDigits (suc f) n = elim (Bool-cases (ltb n 10)) [
  | inl small ↦ rw small (ground arith)
  | inr large ↦
      rw large
        (AreDigits-concat _ (b'0' + n % 10) (decimal_fuel-AreDigits f (n / 10)) (ground arith))
]

pub decimal-AreDigits : (n : ℕ) → AreDigits (decimal n)
unfolding decimal
decimal-AreDigits n = decimal_fuel-AreDigits (suc n) n

decimal_142 : decimal 142 ≡ b'1' ∷ b'4' ∷ b'2' ∷ []
unfolding decimal
decimal_142 = refl

module _ (b k : ℕ) (short : (f n : ℕ) → n < b → length (decimal_fuel f n) ≤ k) where
  -- One more digit for a number up to ten times as large.
  more_digits : (f n : ℕ) → n < 10 * b → length (decimal_fuel f n) ≤ k + 1
  unfolding decimal_fuel
  more_digits zero n h = omega arith
  more_digits (suc f) n h = elim (Bool-cases (ltb n 10)) [
    | inl small ↦ rw small (omega arith)
    | inr large ↦ rw large (
        omega (
          arith,
          short f (n / 10) (omega arith),
          length-append (decimal_fuel f (n / 10)) ((b'0' + n % 10) ∷ []),
        ))
  ]

one_digit : (f n : ℕ) → n < 1 → length (decimal_fuel f n) ≤ 1
unfolding decimal_fuel
one_digit zero n h = omega arith
one_digit (suc f) n h = ground arith

-- A 16-bit number has at most six digits.
pub length-decimal_le : (n : ℕ) → n < 2 ^ 16 → length (decimal n) ≤ 6
unfolding decimal
length-decimal_le n h =
    more_digits 10000 5
      (more_digits 1000 4 (more_digits 100 3 (more_digits 10 2 (more_digits 1 1 one_digit))))
      (suc n) n (omega arith)
