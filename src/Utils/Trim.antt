-- ===== src/Utils/Trim.antt =====
-- What `trim` of Utils.cpp cuts off, and when it throws.
use mathlib.Core.Path.{subst}
use native.Mathlib.Decide.{ℕ_discrete}
use galileo_terremoti.Base.{
  ℕ, suc, ◌+◌, ◌-◌, ◌≡◌, ◌≢◌, refl, sym, ap, inl, inr, none, some, [], ◌∷◌, ◌++◌, arith, Bytes,
  take, length, replicate, Option-cases, Option, ◌∙◌, take-append, zero,
}
use galileo_terremoti.Utils.{substr, find_first_not_of, find_last_not_of, trim}

abbrev pub AllAre : ℕ → Bytes → Type 0
AllAre c [] = Unit {0}
AllAre c (x ∷ xs) = (x ≡ c) × AllAre c xs

-- `r` is `s` without all the `c` in front and behind.
pub record IsTrimmed (c : ℕ) (s r : Bytes) : Type 0 where
  pub before : ℕ
  pub after : ℕ
  pub splits : s ≡ replicate before c ++ (r ++ replicate after c)
  pub starts : (x : ℕ) × (t : Bytes) × (r ≡ x ∷ t) × (x ≢ c)
  pub ends : (y : ℕ) × (t : Bytes) × (r ≡ t ++ y ∷ []) × (y ≢ c)

-- The text up to the last character that is not `c`.
record Kept (c : ℕ) (s : Bytes) (j : ℕ) : Type 0 where
  behind : ℕ
  splits : s ≡ take (suc j) s ++ replicate behind c
  ends : (y : ℕ) × (t : Bytes) × (take (suc j) s ≡ t ++ y ∷ []) × (y ≢ c)

AllAre-replicate : (c : ℕ) (s : Bytes) → AllAre c s → s ≡ replicate (length s) c
AllAre-replicate c [] h = refl
AllAre-replicate c (x ∷ xs) h = ground (arith, AllAre-replicate c xs h.1, h.0)

last-none : (c : ℕ) (s : Bytes) → find_last_not_of c s ≡ none → AllAre c s
unfolding find_last_not_of
last-none c [] h = tt
last-none c (x ∷ xs) h = ground (arith, last-none c xs)

Kept-here : (c x : ℕ) (xs : Bytes) → x ≢ c → AllAre c xs → Kept c (x ∷ xs) 0
Kept-here c x xs n h = record {
  behind = length xs;
  splits = ap (◌∷◌ x) (AllAre-replicate c xs h);
  ends = (x, [], refl, n);
}

Kept-there : (c x : ℕ) (xs : Bytes) (k : ℕ) → Kept c xs k → Kept c (x ∷ xs) (suc k)
Kept-there c x xs k h = record {
  behind = h.behind;
  splits = ap (◌∷◌ x) h.splits;
  ends = (h.ends.0, x ∷ h.ends.1, ap (◌∷◌ x) h.ends.2, h.ends.3);
}

last-Kept : (c : ℕ) (s : Bytes) (j : ℕ) → find_last_not_of c s ≡ some j → Kept c s j
unfolding find_last_not_of
last-Kept c [] j h = cc
last-Kept c (x ∷ xs) j h = elim (Option-cases (find_last_not_of c xs)) [
  | inl e ↦
      subst (Kept c (x ∷ xs)) (let p : 0 ≡ j = ground arith in p)
        (Kept-here c x xs (λ q. ground arith) (last-none c xs e))
  | inr (k, e) ↦
      subst (Kept c (x ∷ xs)) (let p : suc k ≡ j = ground arith in p)
        (Kept-there c x xs k (last-Kept c xs k e))
]

-- A leading `c` makes no difference; behind any other character `trim` is `take`.
trim_skip : (c : ℕ) (xs : Bytes) → trim c (c ∷ xs) ≡ trim c xs
unfolding trim
trim_skip c xs = ground arith

substr_prefix : (s : Bytes) (n : ℕ) → substr s 0 n ≡ some (take n s)
unfolding substr
substr_prefix s n = ground arith

pub trim_keep :
    (c x : ℕ) (xs : Bytes) (j : ℕ)
    → x ≢ c
    → find_last_not_of c (x ∷ xs) ≡ some j
    → trim c (x ∷ xs) ≡ some (take (suc j) (x ∷ xs))
unfolding trim
trim_keep c x xs j n e =
    let first : find_first_not_of c (x ∷ xs) ≡ some 0 = ground arith in
    let size : j - 0 + 1 ≡ suc j = omega arith in
    rw (first, e, size, trim) (substr_prefix (x ∷ xs) (suc j))

abbrev pub TrimResult : ℕ → Bytes → Option Bytes → Type 0
TrimResult c s none = AllAre c s
TrimResult c s (some r) = IsTrimmed c s r

Kept-IsTrimmed :
    (c x : ℕ) (xs : Bytes) (j : ℕ)
    → x ≢ c
    → Kept c (x ∷ xs) j
    → IsTrimmed c (x ∷ xs) (take (suc j) (x ∷ xs))
Kept-IsTrimmed c x xs j n k = record {
  before = 0;
  after = k.behind;
  splits = k.splits;
  starts = (x, take j xs, refl, n);
  ends = k.ends;
}

IsTrimmed-skip : (c : ℕ) (xs r : Bytes) → IsTrimmed c xs r → IsTrimmed c (c ∷ xs) r
IsTrimmed-skip c xs r t = record {
  before = suc t.before;
  after = t.after;
  splits = ap (◌∷◌ c) t.splits;
  starts = t.starts;
  ends = t.ends;
}

TrimResult-skip :
    (c : ℕ) (xs : Bytes) (o : Option Bytes) → TrimResult c xs o → TrimResult c (c ∷ xs) o
TrimResult-skip c xs none h = (refl, h)
TrimResult-skip c xs (some r) h = IsTrimmed-skip c xs r h

last_total : (c x : ℕ) (xs : Bytes) → x ≢ c → (j : ℕ) × (find_last_not_of c (x ∷ xs) ≡ some j)
unfolding find_last_not_of
last_total c x xs n = elim (Option-cases (find_last_not_of c xs)) [
  | inl e ↦ (0, ground arith)
  | inr (k, e) ↦ (suc k, ground arith)
]

-- `trim` throws exactly on the texts that hold nothing but the character, the empty one among
-- them. On any other it returns what is left when all of that character is cut off in front and
-- behind: the result starts and ends with another character, and is never empty.
pub trim-TrimResult : (c : ℕ) (s : Bytes) → TrimResult c s (trim c s)
trim-TrimResult c [] = unfold trim in tt
trim-TrimResult c (x ∷ xs) = elim (ℕ_discrete x c) [
  | yes p ↦
      subst (λ y. TrimResult c (y ∷ xs) (trim c (y ∷ xs))) (sym p)
        (rw trim_skip (TrimResult-skip c xs (trim c xs) (trim-TrimResult c xs)))
  | no p ↦
      let (j, e) = last_total c x xs p in
      rw (trim_keep c x xs j p e) (Kept-IsTrimmed c x xs j p (last-Kept c (x ∷ xs) j e))
]

-- No character is `c`.
abbrev pub NoneIs : ℕ → Bytes → Type 0
NoneIs c [] = Unit {0}
NoneIs c (x ∷ xs) = (x ≢ c) × NoneIs c xs

last-replicate : (c n : ℕ) → find_last_not_of c (replicate n c) ≡ none
unfolding find_last_not_of
last-replicate c zero = refl
last-replicate c (suc n) = ground (arith, last-replicate c n)

pub last-NoneIs :
    (c x : ℕ) (xs : Bytes) (n : ℕ)
    → x ≢ c
    → NoneIs c xs
    → find_last_not_of c (x ∷ (xs ++ replicate n c)) ≡ some (length xs)
unfolding find_last_not_of
last-NoneIs c x [] n p h = ground (arith, last-replicate c n)
last-NoneIs c x (y ∷ xs) n p h = ground (arith, last-NoneIs c y xs n h.0 h.1)

-- A text that does not hold the character is what is left of it with that character behind.
pub trim-NoneIs :
    (c : ℕ) (r : Bytes) (n : ℕ) → NoneIs c r → r ≢ [] → trim c (r ++ replicate n c) ≡ some r
trim-NoneIs c [] n h p = absurd (p refl)
trim-NoneIs c (x ∷ xs) n h p =
    trim_keep c x (xs ++ replicate n c) (length xs) h.0 (last-NoneIs c x xs n h.0 h.1)
    ∙ ap (λ (s : Bytes). some (x ∷ s)) (take-append xs (replicate n c))
