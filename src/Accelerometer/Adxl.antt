-- ===== src/Accelerometer/Adxl.antt =====
-- What the driver of the ADXL345 makes of the sensor's bytes, and what it writes.
use Prim.Native.Nat.{bit_and, bit_or}
use galileo_terremoti.Base.{
  ℕ, if◌then◌else◌, Bool-cases, zero, suc, ◌+◌, ◌-◌, ◌*◌, ◌/◌, ◌%◌, ◌^◌, ◌≤◌, ◌<◌, ◌≡◌, ◌∙◌, refl,
  ap, Bool, true, [], ◌∷◌, Bytes, arith, ltb, ◌==◌, ==_iff, inl, sym, inr,
}
use mathlib.Core.Path.{subst}
use galileo_terremoti.Floats.{Doubles}
use galileo_terremoti.Accelerometer.{
  Smbus, data_format, axes_data, set_range, scaled, get_axes, ℤ, pos, negsuc, of_word, high_byte,
  axis, false,
}

-- The numbers of 16 bits, and their two's complement.
abbrev pub IsShort : ℤ → Type 0
IsShort (pos n) = n < 2 ^ 15
IsShort (negsuc n) = n < 2 ^ 15

abbrev pub short_word : ℤ → ℕ
short_word (pos n) = n
short_word (negsuc n) = 2 ^ 16 - 1 - n

-- A test of all the numbers under a bound, which the checker can run.
passes : (ℕ → Bool) → ℕ → Bool
passes test zero = true
passes test (suc n) = if test n then passes test n else false

passes_lem : (test : ℕ → Bool) (n : ℕ) {k : ℕ} → k < n → passes test n ≡ true → test k ≡ true
unfolding passes
passes_lem test zero small e = absurd (omega arith)
passes_lem test (suc n) {k = k} small e = elim (Bool-cases (test n)) [
  | inr fails ↦ cc
  | inl holds ↦ grind (arith, λ (h : k < n). passes_lem test n h (rw holds at e))
]

abbrev sum_holds : ℕ → ℕ → Bool
sum_holds lo hi = bit_or lo (high_byte hi) == lo + high_byte hi

or_table : passes (λ lo. passes (sum_holds lo) 256) 256 ≡ true
unfolding passes high_byte
or_table = refl

bit_or-high_byte : (lo hi : ℕ) → lo < 256 → hi < 256 → bit_or lo (high_byte hi) ≡ lo + high_byte hi
bit_or-high_byte lo hi p q =
    (==_iff _ _).0 (passes_lem (sum_holds lo) 256 q (passes_lem _ 256 p or_table))

high_byte_small : (hi : ℕ) → hi < 128 → high_byte hi ≡ hi * 256
unfolding high_byte
high_byte_small hi h = ground arith

high_byte_large : (hi : ℕ) → 128 ≤ hi → hi < 256 → high_byte hi ≡ hi * 256 + (2 ^ 32 - 2 ^ 16)
unfolding high_byte
high_byte_large hi h k = ground arith

of_word_small : (n : ℕ) → n < 2 ^ 31 → of_word n ≡ pos n
of_word_small n h = ground arith

of_word_large : (n : ℕ) → 2 ^ 31 ≤ n → of_word n ≡ negsuc (2 ^ 32 - 1 - n)
of_word_large n h = ground arith

axis_small : (lo hi : ℕ) → lo < 256 → hi < 128 → axis lo hi ≡ pos (lo + hi * 256)
unfolding axis
axis_small lo hi p q =
    let word : bit_or lo (high_byte hi) ≡ lo + hi * 256 =
      omega (arith, bit_or-high_byte lo hi p (omega arith), high_byte_small hi q) in
    ap of_word word ∙ of_word_small (lo + hi * 256) (omega arith)

axis_large :
    (lo hi : ℕ)
    → lo < 256
    → 128 ≤ hi
    → hi < 256
    → axis lo hi ≡ negsuc (2 ^ 16 - 1 - (lo + hi * 256))
unfolding axis
axis_large lo hi p q r =
    let n = lo + hi * 256 in
    let word : bit_or lo (high_byte hi) ≡ n + (2 ^ 32 - 2 ^ 16) =
      omega (arith, bit_or-high_byte lo hi p r, high_byte_large hi q r) in
    let rest : 2 ^ 32 - 1 - (n + (2 ^ 32 - 2 ^ 16)) ≡ 2 ^ 16 - 1 - n = omega arith in
    ap of_word word ∙ of_word_large (n + (2 ^ 32 - 2 ^ 16)) (omega arith) ∙ ap negsuc rest

-- The two bytes of a number of 16 bits, the low one first, are read as that number.
axis-short_word : (n : ℤ) → IsShort n → axis (short_word n % 256) (short_word n / 256) ≡ n
axis-short_word (pos n) h =
    axis_small (n % 256) (n / 256) (omega arith) (omega arith) ∙ ap pos (omega arith)
axis-short_word (negsuc n) h =
    let m = 2 ^ 16 - 1 - n in
    axis_large (m % 256) (m / 256) (omega arith) (omega arith) (omega arith)
    ∙ ap negsuc (omega arith)

-- Whatever two bytes the sensor sends, their number has 16 bits: it lies between -32768 and 32767.
pub axis-IsShort : (lo hi : ℕ) → lo < 256 → hi < 256 → IsShort (axis lo hi)
axis-IsShort lo hi p q = elim (Bool-cases (ltb hi 128)) [
  | inl small ↦
      let h : hi < 128 = ground arith in
      let size : lo + hi * 256 < 2 ^ 15 = omega arith in
      subst IsShort (sym (axis_small lo hi p h)) size
  | inr large ↦
      let h : 128 ≤ hi = ground arith in
      let size : 2 ^ 16 - 1 - (lo + hi * 256) < 2 ^ 15 = omega arith in
      subst IsShort (sym (axis_large lo hi p h q)) size
]

-- The byte that `setRange` makes of the old one.
abbrev range_holds : ℕ → ℕ → Bool
range_holds old range =
    bit_or (bit_or (bit_and old (2 ^ 32 - 16)) range) 8 % 256 == old / 16 * 16 + (8 + range)

range_table : passes (λ old. passes (range_holds old) 4) 256 ≡ true
unfolding passes
range_table = refl

module _ (S : Smbus) where
  open S use {Bus, write, read, read_block}

  -- A register keeps the byte that is written to it.
  abbrev pub Keeps : Type 0
  Keeps = (b : Bus) (register v : ℕ) → v < 256 → read register (write register v b) ≡ v

  -- `setRange` keeps the high half of the register DATA_FORMAT, sets the bit of the full resolution
  -- and clears the one of the alignment, and leaves the range in the lowest two bits. (The register
  -- keeps what is written to it; it was read as a byte, without an error; the range is one of the
  -- four.)
  pub set_range-read :
      (range : ℕ) (b : Bus)
      → Keeps
      → read data_format b < 256
      → range < 4
      → read data_format (set_range S range b) ≡ read data_format b / 16 * 16 + (8 + range)
  unfolding set_range
  set_range-read range b keeps h r =
      let old = read data_format b in
      let value =
        (==_iff _ _).0 (passes_lem (range_holds old) 4 r (passes_lem _ 256 h range_table)) in
      keeps b data_format _ (omega arith) ∙ value

  module _ (D : Doubles) where
    -- The six bytes of three numbers of 16 bits, and the axes that they name.
    abbrev pub axes_bytes : ℤ → ℤ → ℤ → Bytes
    axes_bytes x y z =
        short_word x % 256
        ∷ short_word x / 256
        ∷ short_word y % 256
        ∷ short_word y / 256
        ∷ short_word z % 256
        ∷ short_word z / 256
        ∷ []

    -- When the sensor's registers hold three numbers of 16 bits as little-endian two's complement,
    -- `getAxes` returns each of them, negative ones too, times 0.004 and, unless g are asked for,
    -- times 9.80665.
    pub get_axes-axes_bytes :
        (gforce : Bool) (b : Bus) (x y z : ℤ)
        → IsShort x
        → IsShort y
        → IsShort z
        → read_block axes_data 6 b ≡ axes_bytes x y z
        → get_axes S D gforce b
          ≡ record { x = scaled S D gforce x; y = scaled S D gforce y; z = scaled S D gforce z }
    unfolding get_axes
    get_axes-axes_bytes gforce b x y z p q r e =
        rw e (rw (axis-short_word x p, axis-short_word y q, axis-short_word z r) refl)
