-- ===== src/Net/Network/Checksum.antt =====
-- The checksum of an echo request, as its receiver verifies it.
use galileo_terremoti.Base.{
  ℕ, ◌+◌, ◌*◌, ◌/◌, ◌%◌, ◌^◌, ◌≡◌, ◌<◌, ◌≤◌, ap, ◌∙◌, [], ◌∷◌, ◌++◌, Bytes, arith,
}
use galileo_terremoti.Net.Network.{
  words_sum, fold_sum, checksum, echo_packet, message_from, echo_rest,
}

-- The plain sum of the words, and a text of whole words.
abbrev pub plain_sum : Bytes → ℕ
plain_sum [] = 0
plain_sum (a ∷ []) = a
plain_sum (a ∷ b ∷ rest) = a + 256 * b + plain_sum rest

abbrev pub IsEven : Bytes → Type 0
IsEven [] = Unit {0}
IsEven (a ∷ []) = ⊥
IsEven (a ∷ b ∷ rest) = IsEven rest

words_sum_plain :
    (sum : ℕ) (s : Bytes) → sum + plain_sum s < 2 ^ 32 → words_sum sum s ≡ sum + plain_sum s
unfolding words_sum
words_sum_plain sum [] h = omega arith
words_sum_plain sum (a ∷ []) h = omega arith
words_sum_plain sum (a ∷ b ∷ rest) h =
    let small : (sum + (a + 256 * b)) % 2 ^ 32 ≡ sum + (a + 256 * b) = omega arith in
    rw small (words_sum_plain (sum + (a + 256 * b)) rest (omega arith) ∙ omega arith)

plain_sum-append : (xs ys : Bytes) → IsEven xs → plain_sum (xs ++ ys) ≡ plain_sum xs + plain_sum ys
plain_sum-append [] ys h = omega arith
plain_sum-append (a ∷ []) ys h = elim h [ ]
plain_sum-append (a ∷ b ∷ rest) ys h = omega (arith, plain_sum-append rest ys h)

fold_sum_le : (s : ℕ) → fold_sum s ≤ 65535
unfolding fold_sum
fold_sum_le s = omega arith

checksum_le : (s : Bytes) → checksum s ≤ 65535
unfolding checksum
checksum_le s = fold_sum_le (words_sum 0 s)

-- The sum and its complement fold to nothing.
fold_sum-fold_sum : (s : ℕ) → s + 65536 < 2 ^ 32 → fold_sum (s + fold_sum s) ≡ 0
unfolding fold_sum
fold_sum-fold_sum s h = omega arith

-- A packet whose checksum was computed with zeros in its place has the checksum 0, which is what its
-- receiver tests. (The checksum stands behind whole words, and the words do not add up to 2^32.)
checksum-checksum :
    (xs ys : Bytes)
    → IsEven xs
    → plain_sum (xs ++ (0 ∷ 0 ∷ ys)) + 65536 < 2 ^ 32
    → let c = checksum (xs ++ (0 ∷ 0 ∷ ys)) in checksum (xs ++ (c % 256 ∷ c / 256 ∷ ys)) ≡ 0
unfolding checksum
checksum-checksum xs ys e h =
    let s = plain_sum (xs ++ (0 ∷ 0 ∷ ys)) in
    let c = fold_sum (words_sum 0 (xs ++ (0 ∷ 0 ∷ ys))) in
    let before : words_sum 0 (xs ++ (0 ∷ 0 ∷ ys)) ≡ s =
      words_sum_plain 0 (xs ++ (0 ∷ 0 ∷ ys)) (omega arith) ∙ omega arith in
    let small : fold_sum s ≤ 65535 = fold_sum_le s in
    let zeros_in : s ≡ plain_sum xs + plain_sum ys =
      omega (arith, plain_sum-append xs (0 ∷ 0 ∷ ys) e) in
    let filled : plain_sum (xs ++ (c % 256 ∷ c / 256 ∷ ys)) ≡ s + c =
      omega (arith, plain_sum-append xs (c % 256 ∷ c / 256 ∷ ys) e, zeros_in) in
    let after : words_sum 0 (xs ++ (c % 256 ∷ c / 256 ∷ ys)) ≡ s + c =
      words_sum_plain 0 (xs ++ (c % 256 ∷ c / 256 ∷ ys))
        (omega (arith, filled, ap fold_sum before, small))
      ∙ omega (arith, filled) in
    ap fold_sum (after ∙ ap (λ t. s + fold_sum t) before) ∙ fold_sum-fold_sum s h

-- The echo request that `ping` sends verifies: its own checksum is 0, whatever the process and the
-- number of the request.
pub checksum-echo_packet : (pid sequence : ℕ) → checksum (echo_packet pid sequence) ≡ 0
unfolding echo_packet message_from
checksum-echo_packet pid sequence =
    let ys = echo_rest pid sequence in
    let c = checksum (8 ∷ 0 ∷ 0 ∷ 0 ∷ ys) in
    let high : c / 256 % 256 ≡ c / 256 = omega (arith, checksum_le (8 ∷ 0 ∷ 0 ∷ 0 ∷ ys)) in
    rw high (checksum-checksum (8 ∷ 0 ∷ []) ys tt (omega arith))
