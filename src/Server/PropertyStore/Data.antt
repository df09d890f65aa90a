-- ===== src/Server/PropertyStore/Data.antt =====
-- src/glasswyrmd/property.hpp and property.cpp: properties and the slices of their data.
use glasswyrm.Prelude.{
  ℕ, zero, suc, List, [], ◌∷◌, ◌++◌, if◌then◌else◌, leb, ◌==◌, ◌+◌, ◌-◌, ◌*◌, ◌/◌, length, min,
}

pub data PropertyData : Type 0 where
  bytes_8 words_16 words_32 : List ℕ → PropertyData

pub record Property : Type 0 where
  pub kind : ℕ
  pub content : PropertyData

pub data PropertyMode : Type 0 where
  replace prepend append : PropertyMode

pub record PropertySlice : Type 0 where
  pub kind : ℕ
  pub format : ℕ
  pub bytes_after : ℕ
  pub content : PropertyData

-- The values, and sizeof(Value).
abbrev pub values : PropertyData → List ℕ
values (bytes_8 vs) = vs
values (words_16 vs) = vs
values (words_32 vs) = vs

abbrev pub value_size : PropertyData → ℕ
value_size (bytes_8 vs) = 1
value_size (words_16 vs) = 2
value_size (words_32 vs) = 4

abbrev pub with_values : PropertyData → List ℕ → PropertyData
with_values (bytes_8 vs) ws = bytes_8 ws
with_values (words_16 vs) ws = words_16 ws
with_values (words_32 vs) ws = words_32 ws

unfoldable pub format_of : PropertyData → ℕ
format_of d = value_size d * 8

unfoldable pub item_count : Property → ℕ
item_count p = length (values p.content)

unfoldable pub byte_size : Property → ℕ
byte_size p = length (values p.content) * value_size p.content

unfoldable pub take : ℕ → List ℕ → List ℕ
take zero vs = []
take (suc n) [] = []
take (suc n) (v ∷ vs) = v ∷ take n vs

unfoldable pub drop : ℕ → List ℕ → List ℕ
drop zero vs = vs
drop (suc n) [] = []
drop (suc n) (v ∷ vs) = drop n vs

unfoldable pub slice_values : ℕ → List ℕ → ℕ → ℕ → List ℕ
slice_values size vs byte_offset byte_length =
    let first = byte_offset / size in
    let last = min (length vs) (first + byte_length / size) in
    if leb (length vs) first then [] else take (last - first) (drop first vs)

unfoldable pub slice_property_data : PropertyData → ℕ → ℕ → PropertyData
slice_property_data d byte_offset byte_length =
    with_values d (slice_values (value_size d) (values d) byte_offset byte_length)

unfoldable pub concatenate_property_data : PropertyData → PropertyData → PropertyData
concatenate_property_data first second =
    if value_size first == value_size second
    then with_values first (values first ++ values second)
    else first
