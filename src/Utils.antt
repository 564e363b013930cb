-- ===== src/Utils.antt =====
-- Utils.cpp: text and byte helpers. A `std::string` is the list of its bytes. What throws
-- (`substr` past the end) returns `none`; the program catches nothing of it.
pub mod Trim
pub mod Mac
pub mod Clock
use mathlib.Core.Option
use mathlib.Core.List.{reverse}
use galileo_terremoti.Base.{
  ℕ, zero, suc, ◌+◌, ◌-◌, ◌*◌, ◌/◌, ◌%◌, ◌^◌, ◌≤◌, ◌<◌, ◌≡◌, Bool, true, false, Option, none, some,
  List, [], ◌∷◌, ◌++◌, Bytes, to_bytes, of_bytes, take, drop, length, ltb, leb, ◌==◌, if◌then◌else◌,
}

-- `std::string::substr`, which throws when the position is past the end.
unfoldable pub substr : Bytes → ℕ → ℕ → Option Bytes
substr s pos n = if ltb (length s) pos then none else some (take n (drop pos s))

-- `find_first_not_of` and `find_last_not_of` of one character; `none` is `npos`.
unfoldable pub find_first_not_of : ℕ → Bytes → Option ℕ
find_first_not_of c [] = none
find_first_not_of c (x ∷ xs) =
    let later = Option.map suc (find_first_not_of c xs) in if x == c then later else some 0

unfoldable pub find_last_not_of : ℕ → Bytes → Option ℕ
find_last_not_of c [] = none
find_last_not_of c (x ∷ xs) = elim (find_last_not_of c xs) [
  | none ↦ if x == c then none else some 0
  | some j ↦ some (suc j)
]

-- `trim`: with no character to keep, `first` is `npos`, which is past the end of any text, so
-- `substr` throws.
unfoldable pub trim : ℕ → Bytes → Option Bytes
unfolding substr find_first_not_of find_last_not_of
trim c str = elim (find_first_not_of c str) [
  | none ↦ none
  | some first ↦ elim (find_last_not_of c str) [
    | none ↦ none
    | some last ↦ substr str first (last - first + 1)
  ]
]

-- `atofn`: at most `max` characters of the text go to `atof`, which is an argument.
unfoldable pub atofn {ℓ} : {Double : Type ℓ} → (Bytes → Double) → Bytes → ℕ → Double
atofn atof str max = atof (take (if leb max (length str) then max else length str) str)

-- `hton64`, which reads the first four bytes of its argument, the most significant one first.
unfoldable pub hton64_from : ℕ → ℕ → Bytes → ℕ
hton64_from zero aux p = aux
hton64_from (suc i) aux [] = aux
hton64_from (suc i) aux (b ∷ p) = hton64_from i (aux * 256 + b) p

unfoldable pub hton64 : Bytes → ℕ
unfolding hton64_from
hton64 bignum = hton64_from 4 0 bignum

-- `reverseFloat`, on the four bytes of a float's memory and on its bit pattern.
unfoldable pub reverse_float : ℕ → ℕ
reverse_float x = of_bytes (reverse (to_bytes x))
