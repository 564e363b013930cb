-- ===== src/Net/IpAddr/Octets.antt =====
-- Addresses against their octets and their dotted text.
use mathlib.Core.List.{append-nil}
use galileo_terremoti.Base.{
  ℕ, ◌<◌, ◌^◌, ◌≡◌, refl, ap, ◌∙◌, [], ◌∷◌, ◌++◌, arith, Bytes, to_bytes, decimal, read_digits,
  read_digits-decimal, AreDigits, decimal-AreDigits,
}
use galileo_terremoti.Net.IpAddr.{of_int, of_octets, octet, as_string, after_dot, read_dotted}

of_octets-octet :
    (x : ℕ)
    → x < 2 ^ 32
    → of_octets (octet (of_int x) 3) (octet (of_int x) 2) (octet (of_int x) 1) (octet (of_int x) 0)
      ≡ of_int x
unfolding octet of_octets to_bytes
of_octets-octet x h = ap of_int (omega arith)

after_dot-digits : (ds rest : Bytes) → AreDigits ds → after_dot (ds ++ (b'.' ∷ rest)) ≡ rest
unfolding after_dot
after_dot-digits [] rest h = refl
after_dot-digits (c ∷ ds) rest h = ground (arith, after_dot-digits ds rest h.1)

after_dot-decimal : (n : ℕ) (rest : Bytes) → after_dot (decimal n ++ (b'.' ∷ rest)) ≡ rest
after_dot-decimal n rest = after_dot-digits (decimal n) rest (decimal-AreDigits n)

read_digits_stop : (n : ℕ) (rest : Bytes) → read_digits 0 (decimal n ++ (b'.' ∷ rest)) ≡ n
unfolding read_digits
read_digits_stop n rest = read_digits-decimal n (b'.' ∷ rest) ∙ refl

read_digits_end : (n : ℕ) → read_digits 0 (decimal n) ≡ n
unfolding read_digits
read_digits_end n = rw append-nil at (read_digits-decimal n [])

-- The dotted text of every 32-bit address names that address: reading its four numbers, most
-- significant octet first, gives the address back. So different addresses print differently.
pub read_dotted-as_string : (x : ℕ) → x < 2 ^ 32 → read_dotted (as_string (of_int x)) ≡ of_int x
unfolding read_dotted as_string
read_dotted-as_string x h =
    simp (after_dot-decimal, read_digits_stop, read_digits_end) (of_octets-octet x h)
