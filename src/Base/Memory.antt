-- ===== src/Base/Memory.antt =====
-- C strings and writes into byte arrays. A write that leaves the array, or reads past the end of
-- its source, is a fault: `none`.
use mathlib.Core.Path.{◌≡◌, refl}
use mathlib.Core.Logic.{◌≢◌}
use mathlib.Core.Bool.{Bool, true, false, ◌&&◌}
use mathlib.Core.Option.{Option, none, some}
use mathlib.Core.List.{[], ◌∷◌, ◌++◌}
use Prim.Native.Nat.{ℕ, ◌+◌, ◌-◌, ◌≤◌}
use native.Mathlib.Omega.{arith}
use galileo_terremoti.Base.Tests.{leb, ◌==◌, if◌then◌else◌}
use galileo_terremoti.Base.Lists.{length, take, drop, replicate}
use galileo_terremoti.Base.Words.{Bytes}

infixl 5 ◌>>=◌
abbrev pub ◌>>=◌ {ℓ κ} : {A : Type ℓ} {B : Type κ} → Option A → (A → Option B) → Option B
none >>= f = none
some a >>= f = f a

pub bind_cong {ℓ κ} :
    {A : Type ℓ} {B : Type κ} (o : Option A) (f g : A → Option B)
    → ((a : A) → f a ≡ g a)
    → (o >>= f) ≡ (o >>= g)
bind_cong none f g h = refl
bind_cong (some a) f g h = h a

pub bind_assoc {ℓ κ μ} :
    {A : Type ℓ} {B : Type κ} {C : Type μ} (o : Option A) (f : A → Option B) (g : B → Option C)
    → ((o >>= f) >>= g) ≡ (o >>= λ a. f a >>= g)
bind_assoc none f g = refl
bind_assoc (some a) f g = refl

pub none-ne {ℓ} : {A : Type ℓ} {a : A} → none ≡ some a → ⊥
none-ne e = cc

pub some_inj {ℓ} : {A : Type ℓ} {a b : A} → some a ≡ some b → a ≡ b
some_inj e = cc

pub bind_some {ℓ κ} :
    {A : Type ℓ} {B : Type κ} (o : Option A) (f : A → Option B) (b : B)
    → (o >>= f) ≡ some b
    → (a : A) × (o ≡ some a) × (f a ≡ some b)
bind_some none f b e = absurd (none-ne e)
bind_some (some a) f b e = (a, refl, e)

-- `memcmp` and `strcmp` as tests for equality.
unfoldable pub bytes_eq : Bytes → Bytes → Bool
bytes_eq [] [] = true
bytes_eq (x ∷ xs) (y ∷ ys) = x == y && bytes_eq xs ys
bytes_eq _ _ = false

pub bytes_eq_sound : (a b : Bytes) → bytes_eq a b ≡ true → a ≡ b
unfolding bytes_eq
bytes_eq_sound (x ∷ a) (y ∷ b) h = ground (arith, bytes_eq_sound a b)
bytes_eq_sound [] [] h = refl
bytes_eq_sound [] (y ∷ b) h = cc
bytes_eq_sound (x ∷ a) [] h = cc

pub bytes_eq_refl : (a : Bytes) → bytes_eq a a ≡ true
unfolding bytes_eq
bytes_eq_refl [] = refl
bytes_eq_refl (x ∷ a) = ground (arith, bytes_eq_refl a)

-- `strncmp(prefix, s, strlen(prefix)) == 0`.
unfoldable pub starts_with : Bytes → Bytes → Bool
starts_with [] s = true
starts_with (p ∷ ps) [] = false
starts_with (p ∷ ps) (c ∷ s) = p == c && starts_with ps s

-- The text in an array: the bytes before the first zero.
unfoldable pub c_string : Bytes → Bytes
c_string [] = []
c_string (c ∷ cs) = if c == 0 then [] else c ∷ c_string cs

-- A text without a zero byte.
abbrev pub IsText : Bytes → Type 0
IsText [] = Unit {0}
IsText (c ∷ cs) = (c ≢ 0) × IsText cs

pub c_string-IsText : (s : Bytes) → IsText s → c_string s ≡ s
unfolding c_string
c_string-IsText [] h = refl
c_string-IsText (c ∷ cs) h = ground (arith, c_string-IsText cs h.1, h.0)

pub length-c_string-le : (s : Bytes) → length (c_string s) ≤ length s
unfolding c_string
length-c_string-le [] = omega arith
length-c_string-le (c ∷ cs) = ground (arith, length-c_string-le cs)

abbrev pub zeros : ℕ → Bytes
zeros n = replicate n 0

-- `memcpy(buf + offset, src, n)`.
unfoldable pub memcpy : Bytes → ℕ → Bytes → ℕ → Option Bytes
memcpy buf offset src n =
    if leb (offset + n) (length buf) && leb n (length src)
    then some (take offset buf ++ (take n src ++ drop (offset + n) buf))
    else none

-- What `strncpy` writes: at most `n` bytes of the text, filled up with zeros to `n`.
abbrev pub padded : ℕ → Bytes → Bytes
padded n s = let kept = take n (c_string s) in kept ++ zeros (n - length kept)

-- `strncpy(buf + offset, s, n)`.
unfoldable pub strncpy : Bytes → ℕ → Bytes → ℕ → Option Bytes
unfolding memcpy c_string
strncpy buf offset s n = memcpy buf offset (padded n s) n

-- An array of six bytes, spelled out.
abbrev pub SixBytes : Bytes → Type 0
SixBytes m =
    (a : ℕ) × (b : ℕ) × (c : ℕ) × (d : ℕ) × (e : ℕ) × (f : ℕ) × (m ≡ a ∷ b ∷ c ∷ d ∷ e ∷ f ∷ [])

pub six_bytes : (m : Bytes) → length m ≡ 6 → SixBytes m
six_bytes (a ∷ b ∷ c ∷ d ∷ e ∷ f ∷ []) h = (a, b, c, d, e, f, refl)
six_bytes (a ∷ b ∷ c ∷ d ∷ e ∷ f ∷ g ∷ m) h = absurd (omega arith)
six_bytes [] h = absurd (omega arith)
six_bytes (a ∷ []) h = absurd (omega arith)
six_bytes (a ∷ b ∷ []) h = absurd (omega arith)
six_bytes (a ∷ b ∷ c ∷ []) h = absurd (omega arith)
six_bytes (a ∷ b ∷ c ∷ d ∷ []) h = absurd (omega arith)
six_bytes (a ∷ b ∷ c ∷ d ∷ e ∷ []) h = absurd (omega arith)
