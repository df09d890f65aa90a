-- ===== src/Server/PropertyStore/Stored.antt =====
-- What a change stores is what a read gives back.
use glasswyrm.Prelude.{
  ℕ, true, false, List, ◌++◌, Option, none, some, ◌≡◌, ◌-◌, ◌*◌, ◌^◌, ◌≤◌, ◌<◌, arith, refl, sym,
  ap, ◌∙◌, ◌==◌, min, length,
}
use glasswyrm.Prelude.Map.{NatMap, find}
use glasswyrm.Server.PropertyStore.{
  PropertyData, Property, PropertyMode, PropertyTable, PropertyMutationStatus, values, value_size,
  format_of, is_replace, concatenate_property_data, with_values, byte_size, replacement, mismatch,
  change_property, get_property,
}
use glasswyrm.Server.PropertyStore.Reading.{
  part_whole, with_own_values, get_property_reads, changed-HasProperty, change_property-matches,
}

-- The values that a change stores, from those that are there and the new ones.
abbrev pub stored : Option Property → Property → PropertyMode → List ℕ
stored none v mode = values v.content
stored (some current) v PropertyMode.replace = values v.content
stored (some current) v PropertyMode.append = values current.content ++ values v.content
stored (some current) v PropertyMode.prepend = values v.content ++ values current.content

values-with_values : (d : PropertyData) (vs : List ℕ) → values (with_values d vs) ≡ vs
values-with_values (PropertyData.bytes_8 ws) vs = refl
values-with_values (PropertyData.words_16 ws) vs = refl
values-with_values (PropertyData.words_32 ws) vs = refl

size-with_values : (d : PropertyData) (vs : List ℕ) → value_size (with_values d vs) ≡ value_size d
size-with_values (PropertyData.bytes_8 ws) vs = refl
size-with_values (PropertyData.words_16 ws) vs = refl
size-with_values (PropertyData.words_32 ws) vs = refl

concatenate_lem :
    (d e : PropertyData)
    → value_size d ≡ value_size e
    → (values (concatenate_property_data d e) ≡ values d ++ values e)
      × (value_size (concatenate_property_data d e) ≡ value_size d)
unfolding concatenate_property_data
concatenate_lem d e h =
    let same : (value_size d == value_size e) ≡ true = ground (arith, h) in
    rw same (values-with_values d (values d ++ values e), size-with_values d (values d ++ values e))

-- The replacement has the stored values, and the kind and the size of the new ones.
abbrev Stores : Option Property → Property → PropertyMode → Property → Type 0
Stores current v mode p =
    (values p.content ≡ stored current v mode)
    × (value_size p.content ≡ value_size v.content)
    × (p.kind ≡ v.kind)

same_size :
    (current v : Property) (mode : PropertyMode)
    → mismatch (some current) v mode ≡ false
    → is_replace mode ≡ false
    → value_size current.content ≡ value_size v.content
unfolding mismatch format_of
same_size current v mode m r = ground (arith, m, r)

replacement_lem :
    (o : Option Property) (v : Property) (mode : PropertyMode)
    → mismatch o v mode ≡ false
    → Stores o v mode (replacement o v mode)
unfolding replacement
replacement_lem none v mode m = (refl, refl, refl)
replacement_lem (some current) v PropertyMode.replace m = (refl, refl, refl)
replacement_lem (some current) v PropertyMode.append m =
    let sizes = same_size current v PropertyMode.append m refl in
    let both = concatenate_lem current.content v.content sizes in (both.0, both.1 ∙ sizes, refl)
replacement_lem (some current) v PropertyMode.prepend m =
    let sizes = same_size current v PropertyMode.prepend m refl in
    let both = concatenate_lem v.content current.content (sym sizes) in (both.0, both.1, refl)

-- After a change that succeeds, a read of the whole property, for any type and from its beginning,
-- gives back the values that were stored, of the new kind and size and with no byte left: the new
-- ones, put before or after those that were there if the mode says so. The bytes of all of them are
-- at most as many as the read asks for, and their number has 32 bits.
pub get-change_property :
    (t t' : PropertyTable) (w a : ℕ) (v : Property) (mode : PropertyMode) (ps : NatMap Property)
    (l : ℕ)
    → find w t.windows ≡ some ps
    → change_property w a v mode t ≡ (t', PropertyMutationStatus.success)
    → length (stored (find a ps) v mode) * value_size v.content ≤ l * 4
    → length (stored (find a ps) v mode) * value_size v.content < 2 ^ 32
    → (values (get_property w a 0 false 0 l t').1.value.content ≡ stored (find a ps) v mode)
      × (value_size (get_property w a 0 false 0 l t').1.value.content ≡ value_size v.content)
      × ((get_property w a 0 false 0 l t').1.value.kind ≡ v.kind)
      × ((get_property w a 0 false 0 l t').1.value.bytes_after ≡ 0)
unfolding byte_size
get-change_property t t' w a v mode ps l e c long small =
    let new = replacement (find a ps) v mode in
    let has = changed-HasProperty t t' w a v mode ps e c in
    let stores =
      replacement_lem (find a ps) v mode (change_property-matches t t' w a v mode ps e c) in
    let bytes : byte_size new ≡ length (stored (find a ps) v mode) * value_size v.content =
      rw (stores.0, stores.1) refl in
    let read =
      get_property_reads t' w a new 0 false 0 l has (omega arith) (omega (arith, bytes)) refl in
    let size : min (byte_size new - 0 * 4) (l * 4) ≡ byte_size new = omega (arith, bytes) in
    let whole = part_whole new (min (byte_size new - 0 * 4) (l * 4)) size in
    let content = read.0 ∙ ap (with_values new.content) whole ∙ with_own_values new.content in
    (
      ap values content ∙ stores.0,
      ap value_size content ∙ stores.1,
      read.3 ∙ stores.2,
      omega (arith, read.1, size),
    )
