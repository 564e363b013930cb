-- ===== src/Config/Lines.antt =====
-- The lines of the configuration file: what `save` writes for a value, and what `fgets` and `trim`
-- make of it.
use galileo_terremoti.Base.{
  ℕ, zero, suc, ◌≤◌, ◌<◌, ◌≡◌, ◌≢◌, refl, sym, ◌∙◌, none, some, [], ◌∷◌, ◌++◌, append-nil,
  append_assoc, arith, Bytes, take_all, length, length-append, IsText,
}
use galileo_terremoti.Utils.{trim}
use galileo_terremoti.Utils.Trim.{NoneIs, trim-NoneIs}
use galileo_terremoti.Config.{
  line_of, deviceid_key, lat_key, lon_key, fgets, behind_colon, trim_argument,
}

-- A value that fits a line of the file: no blank, line end or zero byte.
abbrev pub IsPlain : Bytes → Type 0
IsPlain s = IsText s × NoneIs 32 s × NoneIs b'\n' s × NoneIs b'\r' s

pub NoneIs-concat : (c x : ℕ) (s : Bytes) → NoneIs c s → x ≢ c → NoneIs c (s ++ x ∷ [])
NoneIs-concat c x [] h p = (p, tt)
NoneIs-concat c x (y ∷ s) h p = (h.0, NoneIs-concat c x s h.1 p)

pub IsText-append : (s t : Bytes) → IsText s → IsText t → IsText (s ++ t)
IsText-append [] t h k = k
IsText-append (c ∷ s) t h k = (h.0, IsText-append s t h.1 k)

pub concat-ne-nil : (s : Bytes) (x : ℕ) → s ++ x ∷ [] ≢ []
concat-ne-nil [] x h = cc
concat-ne-nil (y ∷ s) x h = cc

pub trim_argument_line : (v : Bytes) → IsPlain v → v ≢ [] → trim_argument (v ++ b'\n' ∷ []) ≡ some v
unfolding trim_argument
trim_argument_line v (t, s, n, r) p =
    let blanks : trim 32 (v ++ b'\n' ∷ []) ≡ some (v ++ b'\n' ∷ []) = rw append-nil at (
      trim-NoneIs 32 (v ++ b'\n' ∷ []) 0 (NoneIs-concat 32 b'\n' v s (λ e. omega (arith, e)))
        (concat-ne-nil v b'\n')) in
    let lines : trim b'\n' (v ++ b'\n' ∷ []) ≡ some v = trim-NoneIs b'\n' v 1 n p in
    let returns : trim b'\r' v ≡ some v = rw append-nil at (trim-NoneIs b'\r' v 0 r p) in
    rw (blanks, lines, returns)

pub trim_argument_blank : trim_argument (b'\n' ∷ []) ≡ none
unfolding trim_argument trim
trim_argument_blank = refl

pub fgets_line :
    (n : ℕ) (l rest : Bytes)
    → NoneIs b'\n' l
    → length l < n
    → fgets n (l ++ (b'\n' ∷ rest)) ≡ (l ++ b'\n' ∷ [], rest)
unfolding fgets
fgets_line zero l rest h p = elim p [ ]
fgets_line (suc n) [] rest h p = refl
fgets_line (suc n) (c ∷ l) rest h p = ground (arith, fgets_line n l rest h.1)

pub behind_colon_key :
    (key rest : Bytes) → NoneIs b':' key → behind_colon (key ++ (b':' ∷ rest)) ≡ some rest
unfolding behind_colon
behind_colon_key [] rest h = refl
behind_colon_key (c ∷ key) rest h = ground (arith, behind_colon_key key rest h.1, h.0)

pub NoneIs-append : (c : ℕ) (s t : Bytes) → NoneIs c s → NoneIs c t → NoneIs c (s ++ t)
NoneIs-append c [] t h k = k
NoneIs-append c (x ∷ s) t h k = (h.0, NoneIs-append c s t h.1 k)

-- What a key of the file is: a word with no colon.
pub record IsKey (key : Bytes) : Type 0 where
  pub text : IsText key
  pub one_line : NoneIs b'\n' key
  pub no_colon : NoneIs b':' key
  pub short : length key ≤ 8

pub deviceid_IsKey : IsKey deviceid_key
deviceid_IsKey = omega arith

pub lat_IsKey : IsKey lat_key
lat_IsKey = omega arith

pub lon_IsKey : IsKey lon_key
lon_IsKey = omega arith

-- A value that `save` writes in full and that `readConfigFile` reads in one line.
pub record IsValue (v : Bytes) : Type 0 where
  pub plain : IsPlain v
  pub some_text : v ≢ []
  pub short : length v ≤ 88

pub line_of_value :
    (key v : Bytes) → IsKey key → IsValue v → line_of key v ≡ key ++ (b':' ∷ (v ++ b'\n' ∷ []))
unfolding line_of
line_of_value key v k w = take_all 199 (key ++ (b':' ∷ (v ++ b'\n' ∷ []))) (
    omega (
      arith,
      length-append key (b':' ∷ (v ++ b'\n' ∷ [])),
      length-append v (b'\n' ∷ []),
      k.short,
      w.short,
    ))

pub fgets_value :
    (key v rest : Bytes)
    → IsKey key
    → IsValue v
    → fgets 99 (line_of key v ++ rest) ≡ (line_of key v, rest)
fgets_value key v rest k w =
    let l = key ++ (b':' ∷ v) in
    let whole : line_of key v ≡ l ++ b'\n' ∷ [] =
      line_of_value key v k w ∙ sym (append_assoc key (b':' ∷ v) (b'\n' ∷ [])) in
    let one : NoneIs b'\n' l =
      NoneIs-append b'\n' key (b':' ∷ v) k.one_line ((λ e. omega (arith, e)), w.plain.2) in
    rw (whole, append_assoc)
      (fgets_line 99 l rest one (omega (arith, length-append key (b':' ∷ v), k.short, w.short)))
