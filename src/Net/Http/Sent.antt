-- ===== src/Net/Http/Sent.antt =====
-- The request that `httpRequest` writes, as its receiver reads it.
use galileo_terremoti.Base.{
  ℕ, ◌≡◌, ◌≢◌, ◌<◌, ◌^◌, ◌∙◌, refl, ap, Option, none, some, [], ◌∷◌, ◌++◌, append_assoc, arith,
  Bytes, length, take, drop, take_all, length-append, ◌==◌, ◌&&◌, not, true, Bool, if◌then◌else◌,
  if_cases, bytes_eq, decimal, decimal-AreDigits, AreDigits, IsText, c_string-IsText,
  length-decimal_le, suc, Bool, true, not, zero,
}
use galileo_terremoti.Utils.Trim.{NoneIs}
use galileo_terremoti.Config.Split.{Map}
use galileo_terremoti.Net.Http.{Host}
use galileo_terremoti.Net.Http.Request.{
  http_post, println, line_text, method_text, version_text, host_text, close_text, length_text,
  type_text, form_lines, request_text,
}
use galileo_terremoti.Net.Http.Form.{AreValues, joined, read_form, read_form-joined, trim-form_text}

-- The end of a line and an empty line.
abbrev pub blank_line : Bytes
blank_line = b'\r' ∷ b'\n' ∷ b'\r' ∷ b'\n' ∷ []

-- What stands behind the first empty line.
pub behind_blank : Bytes → Option Bytes
behind_blank [] = none
behind_blank (c ∷ s) =
    let later = behind_blank s in
    if bytes_eq (take 4 (c ∷ s)) blank_line then some (drop 3 s) else later

behind_blank_char : (c : ℕ) (s : Bytes) → c ≢ b'\r' → behind_blank (c ∷ s) ≡ behind_blank s
unfolding behind_blank bytes_eq
behind_blank_char c s n = ground (arith, n)

behind_blank_end :
    (c : ℕ) (s : Bytes) → c ≢ b'\r' → behind_blank (b'\r' ∷ b'\n' ∷ c ∷ s) ≡ behind_blank (c ∷ s)
unfolding behind_blank bytes_eq
behind_blank_end c s n = ground (arith, n)

-- A line with another one behind it is passed over.
behind_blank_line :
    (l : Bytes) (c : ℕ) (s : Bytes)
    → NoneIs b'\r' l
    → c ≢ b'\r'
    → behind_blank (println l ++ (c ∷ s)) ≡ behind_blank (c ∷ s)
behind_blank_line [] c s h n = behind_blank_end c s n
behind_blank_line (x ∷ l) c s h n =
    behind_blank_char x (println l ++ (c ∷ s)) h.0 ∙ behind_blank_line l c s h.1 n

behind_blank_last :
    (l body : Bytes) → NoneIs b'\r' l → behind_blank (println l ++ (println [] ++ body)) ≡ some body
behind_blank_last [] body h = unfold behind_blank bytes_eq in refl
behind_blank_last (x ∷ l) body h =
    behind_blank_char x (println l ++ (println [] ++ body)) h.0 ∙ behind_blank_last l body h.1

pub NoneIs-append : (c : ℕ) (s t : Bytes) → NoneIs c s → NoneIs c t → NoneIs c (s ++ t)
NoneIs-append c [] t h k = k
NoneIs-append c (x ∷ s) t h k = (h.0, NoneIs-append c s t h.1 k)

NoneIs-take : (c n : ℕ) (s : Bytes) → NoneIs c s → NoneIs c (take n s)
NoneIs-take c zero s h = tt
NoneIs-take c (suc n) [] h = tt
NoneIs-take c (suc n) (x ∷ s) h = (h.0, NoneIs-take c n s h.1)

NoneIs-AreDigits : (s : Bytes) → AreDigits s → NoneIs b'\r' s
NoneIs-AreDigits [] h = tt
NoneIs-AreDigits (c ∷ s) h = ((λ e. ground (arith, h.0, e)), NoneIs-AreDigits s h.1)

-- A literal text without the character.
abbrev pub lacks : ℕ → Bytes → Bool
lacks c [] = true
lacks c (x ∷ s) = not (x == c) && lacks c s

pub NoneIs-lacks : (c : ℕ) (s : Bytes) → lacks c s ≡ true → NoneIs c s
NoneIs-lacks c [] h = tt
NoneIs-lacks c (x ∷ s) h = ((λ e. ground (arith, h, e)), NoneIs-lacks c s (ground (arith, h)))

-- The request with this form.
abbrev pub sent_text : Bytes → Host → Bytes → Bytes
sent_text url h body =
    line_text (method_text http_post ++ (32 ∷ (drop h.offset url ++ version_text)))
    ++ (line_text
          (host_text ++ (if h.port == 80 then h.name else h.name ++ (b':' ∷ decimal h.port)))
        ++ (println close_text
            ++ (println type_text
                ++ (line_text (length_text ++ decimal (length body)) ++ (println [] ++ body)))))

pub request_text-sent_text :
    (url : Bytes) (h : Host) (c : ℕ) (k v : Bytes) (m : Map)
    → AreValues ((c ∷ k, v) ∷ m)
    → IsText (joined (c ∷ k, v) m)
    → request_text http_post url h ((c ∷ k, v) ∷ m) ≡ some (sent_text url h (joined (c ∷ k, v) m))
unfolding request_text form_lines
request_text-sent_text url h c k v m a t =
    rw (trim-form_text c k v m a, c_string-IsText (joined (c ∷ k, v) m) t) refl

port-NoneIs :
    (h : Host)
    → NoneIs b'\r' h.name
    → NoneIs b'\r' (if h.port == 80 then h.name else h.name ++ (b':' ∷ decimal h.port))
port-NoneIs h n = if_cases (NoneIs b'\r') (h.port == 80) _ _ n (
    NoneIs-append b'\r' h.name _ n
      ((λ e. omega (arith, e)), NoneIs-AreDigits (decimal h.port) (decimal-AreDigits h.port)))

pub behind_blank-sent_text :
    (url : Bytes) (h : Host) (body : Bytes)
    → NoneIs b'\r' h.name
    → NoneIs b'\r' (drop h.offset url)
    → behind_blank (sent_text url h body) ≡ some body
behind_blank-sent_text url h body n p =
    let request = method_text http_post ++ (32 ∷ (drop h.offset url ++ version_text)) in
    let host = host_text ++ (if h.port == 80 then h.name else h.name ++ (b':' ∷ decimal h.port)) in
    let size = length_text ++ decimal (length body) in
    let path : NoneIs b'\r' (drop h.offset url ++ version_text) =
      NoneIs-append b'\r' (drop h.offset url) version_text p
        (NoneIs-lacks b'\r' version_text refl) in
    let first =
      NoneIs-append b'\r' (method_text http_post) (32 ∷ (drop h.offset url ++ version_text))
        (NoneIs-lacks b'\r' (method_text http_post) refl) ((λ e. omega (arith, e)), path) in
    let second =
      NoneIs-append b'\r' host_text _ (NoneIs-lacks b'\r' host_text refl) (port-NoneIs h n) in
    let last =
      NoneIs-append b'\r' length_text _ (NoneIs-lacks b'\r' length_text refl)
        (NoneIs-AreDigits (decimal (length body)) (decimal-AreDigits (length body))) in
    behind_blank_line (take 1023 request) b'H' _ (NoneIs-take b'\r' 1023 request first)
      (λ e. omega (arith, e))
    ∙ behind_blank_line (take 1023 host) b'C' _ (NoneIs-take b'\r' 1023 host second)
        (λ e. omega (arith, e))
    ∙ behind_blank_line close_text b'C' _ (NoneIs-lacks b'\r' close_text refl)
        (λ e. omega (arith, e))
    ∙ behind_blank_line type_text b'C' _ (NoneIs-lacks b'\r' type_text refl) (λ e. omega (arith, e))
    ∙ behind_blank_last (take 1023 size) body (NoneIs-take b'\r' 1023 size last)

-- The receiver finds these values behind the empty line, in front of which stands the size of what
-- is behind it.
abbrev pub Carries : Bytes → Map → Type 0
Carries text values =
    (head : Bytes) × (body : Bytes) × (text
      ≡ head ++ (length_text ++ (decimal (length body) ++ (blank_line ++ body))))
    × (behind_blank text ≡ some body)
    × (read_form body ≡ values)

regroup :
    (a b c d l n body : Bytes)
    → a ++ (b ++ (c ++ (d ++ (println (l ++ n) ++ (println [] ++ body)))))
      ≡ (a ++ (b ++ (c ++ d))) ++ (l ++ (n ++ (blank_line ++ body)))
regroup a b c d l n body = simp append_assoc

sized :
    (body : Bytes)
    → length body < 2 ^ 16
    → line_text (length_text ++ decimal (length body))
      ≡ println (length_text ++ decimal (length body))
sized body h = ap println (
    take_all 1023 (length_text ++ decimal (length body)) (
      omega (
        arith,
        length-append length_text (decimal (length body)),
        length-decimal_le (length body) h,
      )))

pub sent_text-Carries :
    (url : Bytes) (h : Host) (c : ℕ) (k v : Bytes) (m : Map)
    → AreValues ((c ∷ k, v) ∷ m)
    → length (joined (c ∷ k, v) m) < 2 ^ 16
    → NoneIs b'\r' h.name
    → NoneIs b'\r' (drop h.offset url)
    → Carries (sent_text url h (joined (c ∷ k, v) m)) ((c ∷ k, v) ∷ m)
sent_text-Carries url h c k v m a size n p =
    let body = joined (c ∷ k, v) m in
    let request = line_text (method_text http_post ++ (32 ∷ (drop h.offset url ++ version_text))) in
    let host =
      line_text
        (host_text ++ (if h.port == 80 then h.name else h.name ++ (b':' ∷ decimal h.port))) in
    let close = println close_text in
    let type = println type_text in
    (
      request ++ (host ++ (close ++ type)),
      body,
      ap (λ l. request ++ (host ++ (close ++ (type ++ (l ++ (println [] ++ body))))))
            (sized body size)
          ∙ regroup request host close type length_text (decimal (length body)) body,
      behind_blank-sent_text url h body n p,
      read_form-joined (c ∷ k) v m a,
    )
