-- ===== src/Command/Packet/Buffer.antt =====
-- Writes at the end of what is written so far, with zeros behind: the state of `pktbuf` in
-- `sendPacket`.
use galileo_terremoti.Base.{
  ℕ, zero, suc, ◌+◌, ◌-◌, ◌≤◌, ◌≡◌, sym, ap, true, ◌∙◌, Option, some, [], ◌∷◌, ◌++◌, append_assoc,
  arith, Bytes, take, drop, length, min, leb, zeros, memcpy, length-append, length-take,
  length-replicate, take-append, strncpy, padded, c_string, take_all, replicate-add,
  length-c_string-le,
}
use galileo_terremoti.Command.Packet.{Cursor, put, put_string}

drop-zeros : (n k : ℕ) → drop n (zeros k) ≡ zeros (k - n)
drop-zeros zero k = let e : k ≡ k - 0 = omega arith in ap zeros e
drop-zeros (suc n) zero = let e : 0 ≡ 0 - suc n = omega arith in ap zeros e
drop-zeros (suc n) (suc k) =
    let e : k - n ≡ suc k - suc n = omega arith in drop-zeros n k ∙ ap zeros e

drop-add : (xs : Bytes) (n : ℕ) (ys : Bytes) → drop (length xs + n) (xs ++ ys) ≡ drop n ys
drop-add [] n ys = let e : 0 + n ≡ n = omega arith in ap (λ (m : ℕ). drop m ys) e
drop-add (x ∷ xs) n ys =
    ap (λ (m : ℕ). drop m (x ∷ (xs ++ ys)))
      (let p : suc (length xs) + n ≡ suc (length xs + n) = omega arith in p)
    ∙ drop-add xs n ys

-- A write of `n` bytes where the zeros begin.
pub memcpy_end :
    (xs src : Bytes) (n k : ℕ)
    → n ≤ k
    → n ≤ length src
    → memcpy (xs ++ zeros k) (length xs) src n ≡ some (xs ++ (take n src ++ zeros (k - n)))
unfolding memcpy
memcpy_end xs src n k h s =
    let fits : leb (length xs + n) (length (xs ++ zeros k)) ≡ true =
      ground (arith, length-append xs (zeros k), length-replicate {0} k (let z : ℕ = 0 in z)) in
    let enough : leb n (length src) ≡ true = ground arith in
    rw (fits, enough, take-append xs (zeros k), drop-add xs n (zeros k), drop-zeros n k)

-- The buffer after `xs`, with room for `k` bytes.
abbrev pub cursor_at : Bytes → ℕ → Cursor
cursor_at xs k = record { buf = xs ++ zeros k; offset = length xs }

cursor_at_eq :
    (b b' : Bytes) (o o' : ℕ)
    → b ≡ b'
    → o ≡ o'
    → ◌≡◌ {A = Option Cursor}
        (some (record { buf = b; offset = o }))
        (some (record { buf = b'; offset = o' }))
cursor_at_eq b b' o o' p q = λ i. some (record { buf = p i; offset = q i })

pub put_lem :
    (xs src : Bytes) (n k : ℕ)
    → n ≤ k
    → n ≤ length src
    → put src n (cursor_at xs k) ≡ some (cursor_at (xs ++ take n src) (k - n))
unfolding put
put_lem xs src n k h s = rw (memcpy_end xs src n k h s) (
    cursor_at_eq _ _ _ _ (sym (append_assoc xs (take n src) (zeros (k - n))))
      (omega (arith, length-append xs (take n src), length-take n src)))

-- What a string leaves in the buffer: the text, cut at `max`, and zeros up to the next field.
unfoldable pub string_field : ℕ → Bytes → Bytes
string_field max s =
    let kept = take max (c_string s) in kept ++ zeros (min (length s) max + 1 - length kept)

length-kept-le : (max : ℕ) (s : Bytes) → length (take max (c_string s)) ≤ min (length s) max
length-kept-le max s = omega (arith, length-take max (c_string s), length-c_string-le s)

length-padded : (max : ℕ) (s : Bytes) → length (padded max s) ≡ max
length-padded max s =
    let kept = take max (c_string s) in
    omega (
      arith,
      length-append kept (zeros (max - length kept)),
      length-replicate {0} (max - length kept) (let z : ℕ = 0 in z),
      length-kept-le max s,
    )

pub length-string_field :
    (max : ℕ) (s : Bytes) → length (string_field max s) ≡ min (length s) max + 1
unfolding string_field
length-string_field max s =
    let kept = take max (c_string s) in
    let rest = min (length s) max + 1 - length kept in
    omega (
      arith,
      length-append kept (zeros rest),
      length-replicate {0} rest (let z : ℕ = 0 in z),
      length-kept-le max s,
    )

-- The zeros that `strncpy` writes past the field are zeros already.
string_field-zeros :
    (xs s : Bytes) (max k : ℕ)
    → max + 1 ≤ k
    → xs ++ (padded max s ++ zeros (k - max))
      ≡ (xs ++ string_field max s) ++ zeros (k - (min (length s) max + 1))
unfolding string_field
string_field-zeros xs s max k h =
    let kept = take max (c_string s) in
    let m = min (length s) max + 1 in
    let le = length-kept-le max s in
    let e : max - length kept + (k - max) ≡ m - length kept + (k - m) = omega (arith, le) in
    rw (append_assoc xs (string_field max s) (zeros (k - m))) (
      ap (◌++◌ xs) (
        append_assoc kept _ _
        ∙ ap (◌++◌ kept) (
            replicate-add (max - length kept) (k - max) 0
            ∙ ap zeros e
            ∙ sym (replicate-add (m - length kept) (k - m) 0))
        ∙ sym (append_assoc kept _ _)))

pub put_string_lem :
    (xs s : Bytes) (max k : ℕ)
    → max + 1 ≤ k
    → put_string s max (cursor_at xs k)
      ≡ some (cursor_at (xs ++ string_field max s) (k - (min (length s) max + 1)))
unfolding put_string strncpy
put_string_lem xs s max k h =
    let full : max ≤ length (padded max s) = omega (arith, length-padded max s) in
    rw
      (
        memcpy_end xs (padded max s) max k (omega arith) full,
        take_all max (padded max s) (omega (arith, length-padded max s)),
      )
      (cursor_at_eq _ _ _ _ (string_field-zeros xs s max k h)
        (omega (arith, length-append xs (string_field max s), length-string_field max s)))

-- The same write at an offset that is a numeral.
pub memcpy_at :
    (xs src : Bytes) (o n k : ℕ)
    → length xs ≡ o
    → n ≤ k
    → n ≤ length src
    → memcpy (xs ++ zeros k) o src n ≡ some ((xs ++ take n src) ++ zeros (k - n))
memcpy_at xs src o n k e h s =
    rw (← e, append_assoc xs (take n src) (zeros (k - n))) (memcpy_end xs src n k h s)
