-- ===== src/Net/Http/Lines.antt =====
-- What `getLine` reads, and the headers of a reply.
use mathlib.Core.List.{reverse, reverse-cons}
use galileo_terremoti.Base.{
  ℕ, zero, suc, ◌+◌, ◌≡◌, ◌≢◌, ◌<◌, refl, ◌∙◌, Bool, true, ◌&&◌, none, some, [], ◌∷◌, ◌++◌, Bytes,
  arith, length, length-append, IsText, c_string, c_string-IsText, starts_with, ◌>>=◌, ltb, ◌≤◌,
  lt→ltb, append_assoc, leb,
}
use galileo_terremoti.Config.Split.{Map}
use galileo_terremoti.Net.Http.{read_chars, get_line, line_size, split_header, read_headers}

-- Characters of a line: no zero, no line end, and not the byte that may be taken for the end.
abbrev pub IsLine : Bytes → Type 0
IsLine [] = Unit {0}
IsLine (c ∷ s) = ((c ≢ 0) × (c ≢ b'\r') × (c ≢ b'\n') × (c ≢ 255)) × IsLine s

abbrev pub crlf : Bytes → Bytes
crlf rest = b'\r' ∷ b'\n' ∷ rest

pub IsLine-IsText : (s : Bytes) → IsLine s → IsText s
IsLine-IsText [] h = tt
IsLine-IsText (c ∷ s) h = (h.0.0, IsLine-IsText s h.1)

pub IsLine-append : (s t : Bytes) → IsLine s → IsLine t → IsLine (s ++ t)
IsLine-append [] t h k = k
IsLine-append (c ∷ s) t h k = (h.0, IsLine-append s t h.1 k)

-- A test that computes on a text that is written out.
abbrev pub all_printable : Bytes → Bool
all_printable [] = true
all_printable (c ∷ s) = leb 32 c && leb c 254 && all_printable s

pub line_char :
    (c : ℕ) → leb 32 c && leb c 254 ≡ true → (c ≢ 0) × (c ≢ b'\r') × (c ≢ b'\n') × (c ≢ 255)
line_char c h = (ground arith, ground arith, ground arith, ground arith)

pub IsLine-all_printable : (s : Bytes) → all_printable s ≡ true → IsLine s
IsLine-all_printable [] h = tt
IsLine-all_printable (c ∷ s) h = (line_char c (ground arith), IsLine-all_printable s (ground arith))

read_chars_line :
    (signed : Bool) (room : ℕ) (s rest : Bytes)
    → IsLine s
    → length s < room
    → read_chars signed room (s ++ crlf rest) ≡ record { text = s; done = true; rest = rest }
unfolding read_chars
read_chars_line signed zero s rest h p = elim p [ ]
read_chars_line signed (suc room) [] rest h p = refl
read_chars_line signed (suc room) (c ∷ s) rest h p =
    let (zero_no, return_no, feed_no, end_no) = h.0 in
    ground (arith, read_chars_line signed room s rest h.1)

-- A line of at most 298 characters is read whole, without its end.
pub get_line-crlf :
    (signed : Bool) (s rest : Bytes)
    → IsLine s
    → length s < 299
    → get_line signed (s ++ crlf rest) ≡ record { text = s; done = true; rest = rest }
unfolding get_line
get_line-crlf signed s rest h p = read_chars_line signed 299 s rest h p

-- A key holds no colon.
abbrev pub NoColon : Bytes → Type 0
NoColon [] = Unit {0}
NoColon (c ∷ s) = (c ≢ b':') × NoColon s

abbrev pub field_text : Bytes → Bytes → Bytes
field_text k v = k ++ (b':' ∷ 32 ∷ v)

split_header-field_text : (k v : Bytes) → NoColon k → split_header (field_text k v) ≡ some (k, v)
unfolding split_header starts_with
split_header-field_text [] v h = refl
split_header-field_text (c ∷ k) v h = ground (arith, split_header-field_text k v h.1, h.0)

pub split_header-NoColon : (s : Bytes) → NoColon s → split_header s ≡ none
unfolding split_header
split_header-NoColon [] h = refl
split_header-NoColon (c ∷ s) h = ground (arith, split_header-NoColon s h.1, h.0)

pub record IsField (k v : Bytes) : Type 0 where
  pub key_line : IsLine k
  pub key : NoColon k
  pub value_line : IsLine v
  pub short : length (field_text k v) < 299

abbrev pub AreFields : Map → Type 0
AreFields [] = Unit {0}
AreFields ((k, v) ∷ m) = IsField k v × AreFields m

-- The headers, one line each, and the blank line behind them.
abbrev pub header_text : Map → Bytes → Bytes
header_text [] body = crlf body
header_text ((k, v) ∷ m) body = field_text k v ++ crlf (header_text m body)

-- A line that is not empty is split at its colon; without one the program follows a null pointer.
pub read_headers_line :
    (signed : Bool) (fuel x : ℕ) (s rest : Bytes) (m : Map)
    → IsLine (x ∷ s)
    → length (x ∷ s) < 299
    → read_headers signed (suc fuel) ((x ∷ s) ++ crlf rest) m
      ≡ (split_header (x ∷ s) >>= λ field. read_headers signed fuel rest (field ∷ m))
unfolding read_headers line_size
read_headers_line signed fuel x s rest m h p =
    let some_text : ltb 0 (length (x ∷ s)) ≡ true = lt→ltb 0 (length (x ∷ s)) (omega arith) in
    rw
      (
        get_line-crlf signed (x ∷ s) rest h p,
        c_string-IsText (x ∷ s) (IsLine-IsText (x ∷ s) h),
        some_text,
      )
      refl

read_headers_blank :
    (signed : Bool) (fuel : ℕ) (rest : Bytes) (m : Map)
    → read_headers signed (suc fuel) (crlf rest) m ≡ some (record { fields = m; rest = rest })
unfolding read_headers line_size c_string get_line read_chars
read_headers_blank signed fuel rest m = refl

-- A field without its first character, so that its line is seen not to be empty.
read_headers_field :
    (signed : Bool) (fuel : ℕ) (k v rest : Bytes) (m : Map)
    → IsField k v
    → read_headers signed (suc fuel) (field_text k v ++ crlf rest) m
      ≡ read_headers signed fuel rest ((k, v) ∷ m)
read_headers_field signed fuel k v rest m h =
    let line = IsLine-append k (b':' ∷ 32 ∷ v) h.key_line (
      (omega arith, omega arith, omega arith, omega arith),
      ((omega arith, omega arith, omega arith, omega arith), h.value_line),
    ) in
    head k v h line
  where
    head :
        (k v : Bytes)
        → IsField k v
        → IsLine (field_text k v)
        → read_headers signed (suc fuel) (field_text k v ++ crlf rest) m
          ≡ read_headers signed fuel rest ((k, v) ∷ m)
    head [] v h line =
        read_headers_line signed fuel b':' (32 ∷ v) rest m line h.short
        ∙ rw (split_header-field_text [] v tt) refl
    head (c ∷ k) v h line =
        read_headers_line signed fuel c (k ++ (b':' ∷ 32 ∷ v)) rest m line h.short
        ∙ rw (split_header-field_text (c ∷ k) v h.key) refl

-- The headers of a reply are stored, and the reading stops behind the blank line.
pub read_headers-header_text :
    (signed : Bool) (fuel : ℕ) (fields m : Map) (body : Bytes)
    → AreFields fields
    → length fields < fuel
    → read_headers signed fuel (header_text fields body) m
      ≡ some (record { fields = reverse fields ++ m; rest = body })
read_headers-header_text signed zero fields m body h p = elim p [ ]
read_headers-header_text signed (suc fuel) [] m body h p = read_headers_blank signed fuel body m
read_headers-header_text signed (suc fuel) ((k, v) ∷ fields) m body h p =
    read_headers_field signed fuel k v (header_text fields body) m h.0
    ∙ read_headers-header_text signed fuel fields ((k, v) ∷ m) body h.1 (omega arith)
    ∙ rw (reverse-cons (k, v) fields, append_assoc)

pub length-header_text_le :
    (fields : Map) (body : Bytes) → length fields + 2 ≤ length (header_text fields body)
length-header_text_le [] body = omega arith
length-header_text_le ((k, v) ∷ m) body = omega (
  arith,
  length-header_text_le m body,
  length-append (field_text k v) (crlf (header_text m body)),
  length-append k (b':' ∷ 32 ∷ v),
)
