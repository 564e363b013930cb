-- ===== src/Config/Split/Join.antt =====
-- What `configSplit` reads from a well-formed answer.
use mathlib.Core.List.{reverse, reverse-cons}
use galileo_terremoti.Base.{
  ℕ, ◌≡◌, ◌≢◌, refl, sym, ap, ◌∙◌, some, List, [], ◌∷◌, ◌++◌, append_assoc, append-nil, arith,
  Bytes,
}
use galileo_terremoti.Utils.Trim.{NoneIs}
use galileo_terremoti.Config.Split.{Map, items, split_item, store_item, store_items, config_split}

-- `key:value`, and the entries with the delimiter between them.
abbrev pub entry_text : Bytes × Bytes → Bytes
entry_text (k, v) = k ++ (b':' ∷ v)

abbrev pub join : ℕ → Map → Bytes
join delim [] = []
join delim (e ∷ []) = entry_text e
join delim (e ∷ f ∷ m) = entry_text e ++ (delim ∷ join delim (f ∷ m))

-- No key holds a colon, and neither a key nor a value holds the delimiter.
abbrev pub AreEntries : ℕ → Map → Type 0
AreEntries delim [] = Unit {0}
AreEntries delim ((k, v) ∷ m) =
    (NoneIs b':' k × NoneIs delim k × NoneIs delim v) × AreEntries delim m

pub items_end :
    (delim c : ℕ) (s : Bytes) → NoneIs delim (c ∷ s) → items delim (c ∷ s) ≡ (c ∷ s) ∷ []
unfolding items
items_end delim c [] h = ground (arith, h.0)
items_end delim c (d ∷ s) h = ground (arith, items_end delim d s h.1, h.0)

pub items_delim :
    (delim : ℕ) (s rest : Bytes)
    → NoneIs delim s
    → items delim (s ++ (delim ∷ rest)) ≡ s ∷ items delim rest
unfolding items
items_delim delim [] rest h = ground arith
items_delim delim (c ∷ s) rest h = ground (arith, items_delim delim s rest h.1, h.0)

split_item-entry_text : (k v : Bytes) → NoneIs b':' k → split_item (entry_text (k, v)) ≡ some (k, v)
unfolding split_item
split_item-entry_text [] v h = refl
split_item-entry_text (c ∷ k) v h = ground (arith, split_item-entry_text k v h.1, h.0)

NoneIs-entry_text :
    (delim : ℕ) (k v : Bytes)
    → delim ≢ b':'
    → NoneIs delim k
    → NoneIs delim v
    → NoneIs delim (entry_text (k, v))
NoneIs-entry_text delim [] v p h g = ((λ e. p (sym e)), g)
NoneIs-entry_text delim (c ∷ k) v p h g = (h.0, NoneIs-entry_text delim k v p h.1 g)

items_entry :
    (delim : ℕ) (k v : Bytes)
    → NoneIs delim (entry_text (k, v))
    → items delim (entry_text (k, v)) ≡ entry_text (k, v) ∷ []
items_entry delim [] v h = items_end delim b':' v h
items_entry delim (c ∷ k) v h = items_end delim c (k ++ (b':' ∷ v)) h

store_item-entry_text :
    (k v : Bytes) (elems : Map)
    → NoneIs b':' k
    → store_item (entry_text (k, v)) elems ≡ (k, v) ∷ elems
unfolding store_item
store_item-entry_text k v elems h = ground (arith, split_item-entry_text k v h)

store_items-join :
    (delim : ℕ) (m elems : Map)
    → delim ≢ b':'
    → AreEntries delim m
    → store_items (items delim (join delim m)) elems ≡ reverse m ++ elems
unfolding store_items
store_items-join delim [] elems p h = unfold items in refl
store_items-join delim ((k, v) ∷ []) elems p ((a, b, c), _) =
    rw (items_entry delim k v (NoneIs-entry_text delim k v p b c))
      (store_item-entry_text k v elems a)
store_items-join delim ((k, v) ∷ f ∷ m) elems p ((a, b, c), h) =
    let one =
      items_delim delim (entry_text (k, v)) (join delim (f ∷ m))
        (NoneIs-entry_text delim k v p b c) in
    let rest = items delim (join delim (f ∷ m)) in
    ap (λ (is : List Bytes). store_items is elems) one
    ∙ ap (store_items rest) (store_item-entry_text k v elems a)
    ∙ store_items-join delim (f ∷ m) ((k, v) ∷ elems) p h
    ∙ rw (reverse-cons (k, v) (f ∷ m), append_assoc)

-- An answer that lists entries with the delimiter between them is read as these entries, the later
-- one standing for a key that occurs twice. (The delimiter is no colon; keys hold no colon, and
-- neither keys nor values hold the delimiter.)
pub config_split-join :
    (delim : ℕ) (m : Map)
    → delim ≢ b':'
    → AreEntries delim m
    → config_split (join delim m) delim ≡ reverse m
unfolding config_split
config_split-join delim m p h = store_items-join delim m [] p h ∙ append-nil (reverse m)
