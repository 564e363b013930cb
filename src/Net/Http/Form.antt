-- ===== src/Net/Http/Form.antt =====
-- The form of a request, as its receiver reads it.
use galileo_terremoti.Base.{
  ℕ, suc, ◌≡◌, ◌≢◌, ◌∙◌, refl, ap, sym, some, [], ◌∷◌, ◌++◌, append_assoc, arith, Bytes, map,
  length, take, ◌==◌, if◌then◌else◌, ◌+◌, take-append, length-append,
}
use galileo_terremoti.Utils.{trim, find_last_not_of}
use galileo_terremoti.Utils.Trim.{NoneIs, trim_keep, last-NoneIs}
use galileo_terremoti.Config.Split.{Map, items}
use galileo_terremoti.Config.Split.Join.{items_end, items_delim}
use galileo_terremoti.Net.Http.Request.{form_text}

-- A pair: the key in front of the first `=`, and the value behind it.
pub read_pair : Bytes → Bytes × Bytes
read_pair [] = ([], [])
read_pair (c ∷ s) = let (k, v) = read_pair s in if c == b'=' then ([], s) else (c ∷ k, v)

-- The pairs stand between the `&`.
abbrev pub read_form : Bytes → Map
read_form s = map read_pair (items b'&' s)

-- No key holds a `&` or a `=`, and no value a `&`.
abbrev pub AreValues : Map → Type 0
AreValues [] = Unit {0}
AreValues ((k, v) ∷ m) = (NoneIs b'&' k × NoneIs b'=' k × NoneIs b'&' v) × AreValues m

abbrev pub pair_text : Bytes × Bytes → Bytes
pair_text (k, v) = k ++ (b'=' ∷ v)

-- The form without the last `&`.
abbrev pub joined : Bytes × Bytes → Map → Bytes
joined e [] = pair_text e
joined e (f ∷ m) = pair_text e ++ (b'&' ∷ joined f m)

read_pair-pair_text : (k v : Bytes) → NoneIs b'=' k → read_pair (pair_text (k, v)) ≡ (k, v)
unfolding read_pair
read_pair-pair_text [] v h = refl
read_pair-pair_text (c ∷ k) v (n, h) = rw (read_pair-pair_text k v h) (ground (arith, n))

NoneIs-pair_text : (k v : Bytes) → NoneIs b'&' k → NoneIs b'&' v → NoneIs b'&' (pair_text (k, v))
NoneIs-pair_text [] v h g = ((λ e. omega (arith, e)), g)
NoneIs-pair_text (c ∷ k) v h g = (h.0, NoneIs-pair_text k v h.1 g)

items_pair :
    (k v : Bytes)
    → NoneIs b'&' (pair_text (k, v))
    → items b'&' (pair_text (k, v)) ≡ pair_text (k, v) ∷ []
items_pair [] v h = items_end b'&' b'=' v h
items_pair (c ∷ k) v h = items_end b'&' c (pair_text (k, v)) h

pub read_form-joined :
    (k v : Bytes) (m : Map) → AreValues ((k, v) ∷ m) → read_form (joined (k, v) m) ≡ (k, v) ∷ m
read_form-joined k v [] ((a, b, c), h) =
    rw (items_pair k v (NoneIs-pair_text k v a c)) (rw (read_pair-pair_text k v b) refl)
read_form-joined k v ((j, w) ∷ m) ((a, b, c), h) =
    rw (items_delim b'&' (pair_text (k, v)) (joined (j, w) m) (NoneIs-pair_text k v a c))
      (rw (read_pair-pair_text k v b) (ap (◌∷◌ (k, v)) (read_form-joined j w m h)))

pub form_text-joined :
    (k v : Bytes) (m : Map) → form_text ((k, v) ∷ m) ≡ joined (k, v) m ++ b'&' ∷ []
unfolding form_text
form_text-joined k v [] = sym (append_assoc k (b'=' ∷ v) (b'&' ∷ []))
form_text-joined k v ((j, w) ∷ m) =
    ap (λ s. k ++ (b'=' ∷ (v ++ (b'&' ∷ s)))) (form_text-joined j w m) ∙ simp append_assoc

last-append :
    (c : ℕ) (s t : Bytes) (j : ℕ)
    → find_last_not_of c t ≡ some j
    → find_last_not_of c (s ++ t) ≡ some (length s + j)
unfolding find_last_not_of
last-append c [] t j e = e ∙ ap some (omega arith)
last-append c (x ∷ s) t j e = ground (arith, last-append c s t j e)

-- The last character of the form is the `&` behind the pairs.
last-joined :
    (k v : Bytes) (m : Map)
    → AreValues ((k, v) ∷ m)
    → (j : ℕ) × (find_last_not_of b'&' (joined (k, v) m ++ b'&' ∷ []) ≡ some j)
      × (suc j ≡ length (joined (k, v) m))
unfolding find_last_not_of
last-joined k v [] ((a, b, c), h) = (
  length k + length v,
  ap (find_last_not_of b'&') (append_assoc k (b'=' ∷ v) (b'&' ∷ []))
      ∙ last-append b'&' k (b'=' ∷ (v ++ b'&' ∷ [])) (length v)
          (last-NoneIs b'&' b'=' v 1 (λ e. omega (arith, e)) c),
  omega (arith, length-append k (b'=' ∷ v)),
)
last-joined k v ((i, w) ∷ m) (_, h) =
    let (j, e, size) = last-joined i w m h in
    (
      length (pair_text (k, v)) + suc j,
      ap (find_last_not_of b'&')
            (append_assoc (pair_text (k, v)) (b'&' ∷ joined (i, w) m) (b'&' ∷ []))
          ∙ last-append b'&' (pair_text (k, v)) (b'&' ∷ (joined (i, w) m ++ b'&' ∷ [])) (suc j) (
              last-append b'&' (b'&' ∷ []) (joined (i, w) m ++ b'&' ∷ []) j e
              ∙ ap some (omega arith)),
      omega (arith, size, length-append (pair_text (k, v)) (b'&' ∷ joined (i, w) m)),
    )

trim-last :
    (x : ℕ) (t : Bytes) (j : ℕ)
    → x ≢ b'&'
    → find_last_not_of b'&' (x ∷ (t ++ b'&' ∷ [])) ≡ some j
    → suc j ≡ length (x ∷ t)
    → trim b'&' (x ∷ (t ++ b'&' ∷ [])) ≡ some (x ∷ t)
trim-last x t j n e size =
    trim_keep b'&' x (t ++ b'&' ∷ []) j n e
    ∙ ap (λ i. some (take i (x ∷ (t ++ b'&' ∷ [])))) size
    ∙ ap some (take-append (x ∷ t) (b'&' ∷ []))

-- `trim` cuts off that `&` and nothing else.
pub trim-form_text :
    (c : ℕ) (k v : Bytes) (m : Map)
    → AreValues ((c ∷ k, v) ∷ m)
    → trim b'&' (form_text ((c ∷ k, v) ∷ m)) ≡ some (joined (c ∷ k, v) m)
trim-form_text c k v [] ((a, b, d), h) =
    let (j, e, size) = last-joined (c ∷ k) v [] ((a, b, d), h) in
    ap (trim b'&') (form_text-joined (c ∷ k) v []) ∙ trim-last c (k ++ (b'=' ∷ v)) j a.0 e size
trim-form_text c k v (f ∷ m) ((a, b, d), h) =
    let (j, e, size) = last-joined (c ∷ k) v (f ∷ m) ((a, b, d), h) in
    ap (trim b'&') (form_text-joined (c ∷ k) v (f ∷ m))
    ∙ trim-last c (pair_text (k, v) ++ (b'&' ∷ joined f m)) j a.0 e size
