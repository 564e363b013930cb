-- ===== src/Config/Split.antt =====
-- `Config::configSplit`: the text of the server's answer as a map. A `std::map` is an association
-- list here, the newest entry first: a lookup finds the newest entry of a key.
pub mod Join
use mathlib.Core.Option
use galileo_terremoti.Base.{
  ℕ, zero, suc, ◌+◌, ◌≡◌, ◌≢◌, refl, sym, ap, ◌∙◌, Bool, true, false, Option, none, some, List, [],
  ◌∷◌, ◌++◌, append_assoc, arith, Bytes, ◌==◌, if◌then◌else◌, bytes_eq, length,
}

abbrev pub Map : Type 0
Map = List (Bytes × Bytes)

unfoldable pub find : Bytes → Map → Option Bytes
find k [] = none
find k ((j, v) ∷ m) = if bytes_eq j k then some v else find k m

-- `params[k]`: the value, or an empty one, and `params.count(k) == 1`.
unfoldable pub value_at : Bytes → Map → Bytes
value_at k m = Option.get_or (find k m) []

add_first : ℕ → List Bytes → List Bytes
add_first c [] = (c ∷ []) ∷ []
add_first c (i ∷ is) = (c ∷ i) ∷ is

-- `std::getline(ss, item, delim)`, for all items at once: the delimiter ends an item, and what
-- stands behind the last one is an item only if it holds something.
unfoldable pub items : ℕ → Bytes → List Bytes
unfolding add_first
items delim [] = []
items delim (c ∷ s) = if c == delim then [] ∷ items delim s else add_first c (items delim s)

-- `item.find(':')`, and the two texts on its sides.
unfoldable pub split_item : Bytes → Option (Bytes × Bytes)
split_item [] = none
split_item (c ∷ s) =
    if c == b':' then some ([], s) else Option.map (λ (k, v). (c ∷ k, v)) (split_item s)

-- One item: without a colon it is passed over.
unfoldable pub store_item : Bytes → Map → Map
unfolding split_item
store_item item elems = elim (split_item item) [ none ↦ elems | some entry ↦ entry ∷ elems ]

unfoldable pub store_items : List Bytes → Map → Map
unfolding store_item
store_items [] elems = elems
store_items (i ∷ is) elems = store_items is (store_item i elems)

unfoldable pub config_split : Bytes → ℕ → Map
unfolding store_items items
config_split s delim = store_items (items delim s) []
