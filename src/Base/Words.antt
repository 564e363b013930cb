-- ===== src/Base/Words.antt =====
-- Machine words as native numbers: the differences of unsigned words, and the bytes of a word in
-- the memory of a little-endian machine (every platform of the program is one).
use Prim.Native.Nat.{ℕ, ◌+◌, ◌-◌, ◌*◌, ◌/◌, ◌%◌, ◌^◌, ◌<◌}
use mathlib.Core.Path.{◌≡◌}
use mathlib.Core.List.{List, [], ◌∷◌}
use native.Mathlib.Omega.{arith}

abbrev pub Bytes : Type 0
Bytes = List ℕ

-- `a - b` on two unsigned words of `w` bits.
abbrev pub word_sub : ℕ → ℕ → ℕ → ℕ
word_sub w a b = (a + 2 ^ w - b) % 2 ^ w

-- Every element is a byte.
abbrev pub AreBytes : Bytes → Type 0
AreBytes [] = Unit {0}
AreBytes (b ∷ bs) = (b < 256) × AreBytes bs

-- The four bytes of a 32-bit word in memory, and the word that four bytes of memory hold.
unfoldable pub to_bytes : ℕ → Bytes
to_bytes x = x % 256 ∷ x / 256 % 256 ∷ x / 65536 % 256 ∷ x / 16777216 % 256 ∷ []

unfoldable pub of_bytes : Bytes → ℕ
of_bytes [] = 0
of_bytes (b ∷ bs) = b + 256 * of_bytes bs

pub of_bytes-to_bytes : (x : ℕ) → x < 2 ^ 32 → of_bytes (to_bytes x) ≡ x
unfolding of_bytes to_bytes
of_bytes-to_bytes x h = omega arith
