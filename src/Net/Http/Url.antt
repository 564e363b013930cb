-- ===== src/Net/Http/Url.antt =====
-- `hostFromURL` on the URLs of the project's server.
use galileo_terremoti.Base.{
  ℕ, ◌+◌, ◌≡◌, ◌≢◌, ◌<◌, ◌^◌, refl, ap, ◌∙◌, Option, none, some, [], ◌∷◌, ◌++◌, Bytes, arith,
  length, take_all, drop, decimal, List, AreDigits, suc, read_digits, zero, sym, append-nil,
  decimal-AreDigits, read_digits-decimal, length-decimal_le, drop-append, starts_with, ◌%◌, lt→ltb,
}
use galileo_terremoti.Net.Http.{Host, scheme, host_part, port_part, host_port, host_from_url, atoi}
use galileo_terremoti.Config.{is_space}
use native.Mathlib.Nat.{suc-add}

-- The characters of a host's name: neither ends it.
abbrev pub IsName : Bytes → Type 0
IsName [] = Unit {0}
IsName (c ∷ s) = ((c ≢ b'/') × (c ≢ b':')) × IsName s

-- The text of a port, if there is one.
abbrev pub port_text : Option ℕ → Bytes
port_text none = []
port_text (some n) = b':' ∷ decimal n

abbrev pub port_or : Option ℕ → ℕ → ℕ
port_or none port = port
port_or (some n) port = n

abbrev pub IsPort : Option ℕ → Type 0
IsPort none = Unit {0}
IsPort (some n) = n < 2 ^ 16

abbrev pub url_of : Bytes → Option ℕ → Bytes → Bytes
url_of name port path = scheme ++ (name ++ (port_text port ++ (b'/' ∷ path)))

host_part_slash : (name path : Bytes) → IsName name → host_part (name ++ (b'/' ∷ path)) ≡ name
unfolding host_part
host_part_slash [] path h = refl
host_part_slash (c ∷ name) path h = ground (arith, host_part_slash name path h.1, h.0.0, h.0.1)

host_part_colon : (name s : Bytes) → IsName name → host_part (name ++ (b':' ∷ s)) ≡ name
unfolding host_part
host_part_colon [] s h = refl
host_part_colon (c ∷ name) s h = ground (arith, host_part_colon name s h.1, h.0.0, h.0.1)

drop-nil {ℓ} : {A : Type ℓ} (n : ℕ) → drop {A = A} n [] ≡ []
drop-nil zero = refl
drop-nil (suc n) = refl

pub drop_add {ℓ} : {A : Type ℓ} (m n : ℕ) (xs : List A) → drop (m + n) xs ≡ drop n (drop m xs)
drop_add zero n xs = ap (λ k. drop k xs) (omega arith)
drop_add (suc m) n [] = drop-nil (suc m + n) ∙ sym (drop-nil n)
drop_add (suc m) n (x ∷ xs) = rw suc-add (drop_add m n xs)

port_part-digits : (ds path : Bytes) → AreDigits ds → port_part (ds ++ (b'/' ∷ path)) ≡ ds
unfolding port_part
port_part-digits [] path h = refl
port_part-digits (c ∷ ds) path h = ground (arith, port_part-digits ds path h.1, h.0)

pub atoi-digits : (w : ℕ) (ds : Bytes) → AreDigits ds → atoi w ds ≡ read_digits 0 ds % 2 ^ w
unfolding atoi is_space read_digits
atoi-digits w [] h = omega arith
atoi-digits w (c ∷ ds) h = ground (arith, h.0)

decimal-value : (n : ℕ) → read_digits 0 (decimal n) ≡ n
unfolding read_digits
decimal-value n = rw append-nil at (read_digits-decimal n [])

-- A printed number is what `atoi` reads.
pub atoi-decimal : (w n : ℕ) → n < 2 ^ w → atoi w (decimal n) ≡ n
atoi-decimal w n h =
    atoi-digits w (decimal n) (decimal-AreDigits n) ∙ rw (decimal-value n) (mod_small n (2 ^ w) h)
  where
    mod_small : (x n : ℕ) → x < n → x % n ≡ x
    mod_small x n h = grind arith

abbrev host_of : Bytes → Option ℕ → Host
host_of name port = record {
  name = name;
  port = port_or port 80;
  offset = 7 + length name + length (port_text port);
}

host_port-port_text :
    (name path : Bytes) (host_end : ℕ) (port : Option ℕ)
    → IsPort port
    → host_port name 80 host_end (port_text port ++ (b'/' ∷ path))
      ≡ record { name = name; port = port_or port 80; offset = host_end + length (port_text port) }
unfolding host_port
host_port-port_text name path e none h =
    ap (λ k. record { name = name; port = 80; offset = k }) (omega arith)
host_port-port_text name path e (some n) h =
    let part = port_part-digits (decimal n) path (decimal-AreDigits n) in
    let whole = take_all 30 (decimal n) (omega (arith, length-decimal_le n h)) in
    let place : e + 1 + length (decimal n) ≡ e + length (port_text (some n)) = omega arith in
    rw (part, whole, atoi-decimal 16 n h, place) refl

host_part-url :
    (name path : Bytes) (port : Option ℕ)
    → IsName name
    → host_part (name ++ (port_text port ++ (b'/' ∷ path))) ≡ name
host_part-url name path none h = host_part_slash name path h
host_part-url name path (some n) h = host_part_colon name _ h

drop-url :
    (name path : Bytes) (port : Option ℕ)
    → drop (7 + length name) (url_of name port path) ≡ port_text port ++ (b'/' ∷ path)
drop-url name path port =
    drop_add 7 (length name) (url_of name port path)
    ∙ drop-append name (port_text port ++ (b'/' ∷ path))

-- Of "http://name:port/path", or of the same without a port, `hostFromURL` finds the name, the port
-- (80 if there is none), and the offset at which "/path" stands, which is what `httpRequest` asks
-- for. (The name has no `/` and no `:` and at most 99 characters; a port is a 16-bit number.)
pub host_from_url-url_of :
    (name path : Bytes) (port : Option ℕ)
    → IsName name
    → length name < 100
    → IsPort port
    → (h : Host) × (host_from_url (url_of name port path) 80 ≡ some h)
      × (h.name ≡ name)
      × (h.port ≡ port_or port 80)
      × (drop h.offset (url_of name port path) ≡ b'/' ∷ path)
unfolding host_from_url starts_with
host_from_url-url_of name path port n short p =
    let part = host_part-url name path port n in
    let rest = drop-url name path port in
    let fits = lt→ltb (length name) 100 short in
    (
      host_of name port,
      rw (part, rest, fits) (ap some (host_port-port_text name path (7 + length name) port p)),
      refl,
      refl,
      drop_add (7 + length name) (length (port_text port)) (url_of name port path)
          ∙ ap (drop (length (port_text port))) rest
          ∙ drop-append (port_text port) (b'/' ∷ path),
    )
