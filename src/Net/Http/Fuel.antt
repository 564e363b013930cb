-- ===== src/Net/Http/Fuel.antt =====
-- The loop over the headers of a reply ends.
use galileo_terremoti.Base.{
  ℕ, zero, suc, ◌+◌, ◌≤◌, ◌<◌, ◌≡◌, refl, Bool, true, ◌&&◌, inl, inr, [], ◌∷◌, Bytes, arith, ltb,
  length, c_string, length-c_string-le, Bool-cases, ltb→lt, bind_cong,
}
use galileo_terremoti.Config.Split.{Map}
use galileo_terremoti.Net.Http.{read_chars, get_line, line_size, split_header, read_headers}

-- What is read and what is left were there before.
read_chars_le :
    (signed : Bool) (room : ℕ) (s : Bytes)
    → length (read_chars signed room s).text + length (read_chars signed room s).rest ≤ length s
unfolding read_chars
read_chars_le signed zero s = omega arith
read_chars_le signed (suc room) [] = omega arith
read_chars_le signed (suc room) (c ∷ s) =
    ground (arith, read_chars_le signed (suc room) s, read_chars_le signed room s)

-- The loop goes on only behind a line with a character in it.
get_line_lt :
    (signed : Bool) (s : Bytes)
    → ltb 0 (length (c_string (get_line signed s).text)) ≡ true
    → length (get_line signed s).rest < length s
unfolding get_line
get_line_lt signed s h = omega (
  arith,
  ltb→lt 0 (length (c_string (read_chars signed 299 s).text)) h,
  read_chars_le signed 299 s,
  length-c_string-le (read_chars signed 299 s).text,
)

-- The loop over the headers ends within one round for each character and one more: with at least
-- that fuel its result does not depend on the fuel.
pub read_headers_fuel :
    (signed : Bool) (fuel fuel' : ℕ) (s : Bytes) (m : Map)
    → length s < fuel
    → length s < fuel'
    → read_headers signed fuel s m ≡ read_headers signed fuel' s m
unfolding read_headers
read_headers_fuel signed zero fuel' s m h k = elim h [ ]
read_headers_fuel signed (suc fuel) zero s m h k = elim k [ ]
read_headers_fuel signed (suc fuel) (suc fuel') s m h k =
    let l = get_line signed s in
    elim (Bool-cases (ltb 0 (line_size l) && ltb 0 (length (c_string l.text)))) [
      | inl on ↦
          let shorter : length l.rest < length s = get_line_lt signed s (ground (arith, on)) in
          rw on (
            bind_cong (split_header (c_string l.text)) _ _ (λ field.
              read_headers_fuel signed fuel fuel' l.rest (field ∷ m) (omega (arith, shorter))
                (omega (arith, shorter))))
      | inr off ↦ rw off refl
    ]
