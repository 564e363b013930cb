-- ===== src/Net/Http/Reply.antt =====
-- What `httpRequest` makes of the server's reply.
use mathlib.Core.List.{reverse, reverse-cons}
use galileo_terremoti.Base.{
  ℕ, suc, ◌+◌, ◌-◌, ◌*◌, ◌^◌, ◌≡◌, ◌<◌, ◌≤◌, refl, ap, ◌∙◌, sym, true, none, some, List, [], ◌∷◌,
  ◌++◌, Bytes, arith, length, take, decimal, starts_with, bytes_eq_refl, read_digits, append-nil,
  AreDigits, read_digits_digit, IsText, c_string-IsText, decimal-AreDigits, min, take_all, lt→ltb,
}
use galileo_terremoti.Config.Split.{Map, find}
use galileo_terremoti.Net.Http.{
  read_good, body_of, read_body, read_reply, get_response_code, Exchange, http_ok, content_length,
  http_1, atoi,
}
use galileo_terremoti.Net.Http.Url.{atoi-decimal, atoi-digits}
use galileo_terremoti.Net.Http.Lines.{
  IsLine, crlf, NoColon, AreFields, header_text, get_line-crlf, read_headers_line,
  read_headers-header_text, length-header_text_le, IsLine-append, IsLine-all_printable, line_char,
  split_header-NoColon, IsLine-append, IsLine-all_printable, line_char,
}

-- "HTTP/1.1 ", the three digits of a code, and a reason.
abbrev pub status_line : ℕ → ℕ → ℕ → Bytes → Bytes
status_line a b c reason = http_1 ++ (b'1' ∷ 32 ∷ (b'0' + a) ∷ (b'0' + b) ∷ (b'0' + c) ∷ reason)

abbrev pub IsStatus : ℕ → ℕ → ℕ → Bytes → Type 0
IsStatus a b c reason = (a < 10) × (b < 10) × (c < 10) × IsLine reason × (length reason < 287)

pub AreDigits-IsText : (s : Bytes) → AreDigits s → IsText s
AreDigits-IsText [] h = tt
AreDigits-IsText (c ∷ s) h = (ground (arith, h.0), AreDigits-IsText s h.1)

three_digits :
    (a b c : ℕ)
    → a < 10
    → b < 10
    → c < 10
    → read_digits 0 ((b'0' + a) ∷ (b'0' + b) ∷ (b'0' + c) ∷ []) ≡ a * 100 + b * 10 + c
unfolding read_digits
three_digits a b c p q r =
    read_digits_digit 0 a ((b'0' + b) ∷ (b'0' + c) ∷ []) p
    ∙ read_digits_digit (0 * 10 + a) b ((b'0' + c) ∷ []) q
    ∙ read_digits_digit ((0 * 10 + a) * 10 + b) c [] r
    ∙ omega arith

get_response_code-status_line :
    (a b c : ℕ) (reason : Bytes)
    → a < 10
    → b < 10
    → c < 10
    → get_response_code (status_line a b c reason) ≡ a * 100 + b * 10 + c
unfolding get_response_code
get_response_code-status_line a b c reason p q r =
    let digits : Bytes = (b'0' + a) ∷ (b'0' + b) ∷ (b'0' + c) ∷ [] in
    let all : AreDigits digits = (ground arith, (ground arith, (ground arith, tt))) in
    ap (atoi 16) (c_string-IsText digits (AreDigits-IsText digits all))
    ∙ atoi-digits 16 digits all
    ∙ rw (three_digits a b c p q r) (omega arith)

status_line-IsLine :
    (a b c : ℕ) (reason : Bytes) → IsStatus a b c reason → IsLine (status_line a b c reason)
status_line-IsLine a b c reason (p, q, r, l, short) =
    IsLine-append (http_1 ++ (b'1' ∷ 32 ∷ [])) ((b'0' + a) ∷ (b'0' + b) ∷ (b'0' + c) ∷ reason)
      (IsLine-all_printable (http_1 ++ (b'1' ∷ 32 ∷ [])) refl)
      (
        line_char (b'0' + a) (ground arith),
        (line_char (b'0' + b) (ground arith), (line_char (b'0' + c) (ground arith), l)),
      )

read_reply_good :
    (x : Exchange) (a b c : ℕ) (reason rest : Bytes)
    → IsStatus a b c reason
    → read_reply x (status_line a b c reason ++ crlf rest)
      ≡ read_good x (record { text = status_line a b c reason; done = true; rest = rest })
unfolding read_reply starts_with
read_reply_good x a b c reason rest s =
    rw
      (get_line-crlf x.signed (status_line a b c reason) rest (status_line-IsLine a b c reason s)
        (omega (arith, s.4)))
      refl

-- The headers of a reply whose body's size they name last.
abbrev pub with_length : Map → Bytes → Map
with_length fields body = fields ++ (content_length, decimal (length body)) ∷ []

reverse-concat {ℓ} : {A : Type ℓ} (xs : List A) (x : A) → reverse (xs ++ x ∷ []) ≡ x ∷ reverse xs
reverse-concat [] x = refl
reverse-concat (y ∷ xs) x =
    reverse-cons y (xs ++ x ∷ [])
    ∙ ap (λ zs. zs ++ y ∷ []) (reverse-concat xs x)
    ∙ ap (◌∷◌ x) (sym (reverse-cons y xs))

find_first : (k v : Bytes) (m : Map) → find k ((k, v) ∷ m) ≡ some v
unfolding find
find_first k v m = rw (bytes_eq_refl k) refl

read_body_first :
    (x : Exchange) (m : Map) (body : Bytes)
    → length body < 2 ^ x.word
    → length body < x.memory
    → length body ≤ x.ready
    → read_body x (record { fields = (content_length, decimal (length body)) ∷ m; rest = body })
      ≡ some (some (body ++ 0 ∷ []))
unfolding read_body body_of
read_body_first x m body w p r =
    let size = length body in
    let text =
      c_string-IsText (decimal size) (AreDigits-IsText (decimal size) (decimal-AreDigits size)) in
    let got : take (min size x.ready) body ≡ body =
      take_all (min size x.ready) body (omega arith) in
    let left : size + 1 - size ≡ 1 = omega arith in
    ap (body_of x body) (find_first content_length (decimal size) m)
    ∙ rw (text, atoi-decimal x.word size w, got, lt→ltb size x.memory p, left) refl

read_body_whole :
    (x : Exchange) (fields : Map) (body : Bytes)
    → length body < 2 ^ x.word
    → length body < x.memory
    → length body ≤ x.ready
    → read_body x (record { fields = reverse (with_length fields body); rest = body })
      ≡ some (some (body ++ 0 ∷ []))
read_body_whole x fields body w p r =
    ap (λ m. read_body x (record { fields = m; rest = body }))
      (reverse-concat fields (content_length, decimal (length body)))
    ∙ read_body_first x (reverse fields) body w p r

-- Of a reply, `httpRequest` finds the code, the headers (the last one first) and the body with a
-- zero behind it, as the server sent them. (The code has three digits; the status line and the
-- headers have at most 298 characters each and hold no line end, no zero byte and no byte 255, the
-- keys no colon; the last header names the size of the body; the body arrives at once, its size is
-- a word, and there is memory for it.)
pub read_reply-reply_text :
    (x : Exchange) (a b c : ℕ) (reason body : Bytes) (fields : Map)
    → IsStatus a b c reason
    → AreFields (with_length fields body)
    → length body < 2 ^ x.word
    → length body < x.memory
    → length body ≤ x.ready
    → read_reply x (status_line a b c reason ++ crlf (header_text (with_length fields body) body))
      ≡ some (record {
        error = http_ok;
        response_code = a * 100 + b * 10 + c;
        headers = reverse (with_length fields body);
        body = some (body ++ 0 ∷ []);
      })
unfolding read_good
read_reply-reply_text x a b c reason body fields s f w m r =
    let text = header_text (with_length fields body) body in
    let fuel : length (with_length fields body) < length text + 1 =
      omega (arith, length-header_text_le (with_length fields body) body) in
    read_reply_good x a b c reason text s
    ∙ rw
        (
          read_headers-header_text x.signed (length text + 1) (with_length fields body) [] body f
              fuel,
          append-nil (reverse (with_length fields body)),
          read_body_whole x fields body w m r,
          get_response_code-status_line a b c reason s.0 s.1 s.2,
        )
        refl

-- A reply whose first header has no colon crashes the client: it follows the null pointer that
-- `strchr` returns. (The status line is good; the line has between one and 298 characters, none of
-- them a colon, a zero byte or the byte 255.)
pub read_reply-NoColon :
    (x : Exchange) (a b c y : ℕ) (reason s rest : Bytes)
    → IsStatus a b c reason
    → IsLine (y ∷ s)
    → NoColon (y ∷ s)
    → length (y ∷ s) < 299
    → read_reply x (status_line a b c reason ++ crlf ((y ∷ s) ++ crlf rest)) ≡ none
unfolding read_good
read_reply-NoColon x a b c y reason s rest status line colon_free p =
    let text = (y ∷ s) ++ crlf rest in
    let fuel : length text + 1 ≡ suc (length text) = omega arith in
    read_reply_good x a b c reason text status
    ∙ rw
        (
          fuel,
          read_headers_line x.signed (length text) y s rest [] line p,
          split_header-NoColon (y ∷ s) colon_free,
        )
        refl
