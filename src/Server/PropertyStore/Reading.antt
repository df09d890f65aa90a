-- ===== src/Server/PropertyStore/Reading.antt =====
-- What a read returns, and what a change leaves in the table.
use glasswyrm.Prelude.{
  ℕ, Bool, true, false, List, ◌++◌, some, ◌≡◌, inl, inr, ◌+◌, ◌-◌, ◌*◌, ◌/◌, ◌^◌, ◌≤◌, ◌<◌, arith,
  refl, sym, ap, ◌∙◌, Bool-cases, ◌&&◌, ◌||◌, ltb, ◌==◌, min, length,
}
use glasswyrm.Prelude.Map.{NatMap, find, insert, find-insert}
use glasswyrm.Server.PropertyStore.{
  PropertyData, Property, PropertyMode, PropertyTable, PropertyMutationStatus, values, value_size,
  with_values, take, drop, slice_property_data, byte_size, replacement, mismatch, over_limits,
  change_in, change_property, read_property, read_in, get_property,
}
use glasswyrm.Server.PropertyStore.Slices.{slice_values_lem, take_all, take_split}

abbrev pub HasProperty : PropertyTable → ℕ → ℕ → Property → Type 0
HasProperty t w a p = (ps : NatMap Property) × (find w t.windows ≡ some ps) × (find a ps ≡ some p)

-- The result of a read of a property that is there is the result of read_property.
get-read :
    (t : PropertyTable) (w a : ℕ) (p : Property) (has : HasProperty t w a p) (k : ℕ) (d : Bool)
    (o l : ℕ)
    → get_property w a k d o l t ≡ read_property w has.0 a p k d o l t
unfolding get_property read_in
get-read t w a p has k d o l = rw (has.1, has.2, get_property, read_in) refl

-- The values between two places, counted in units of four bytes.
abbrev pub part_of : PropertyData → ℕ → ℕ → List ℕ
part_of d o returned = take (returned / value_size d) (drop (o * 4 / value_size d) (values d))

-- A read of a property from a place inside it, for its type or any type, returns the values from
-- that place on, as many bytes as were asked for and are there. It tells how many bytes follow, and
-- deletes the property exactly if that was asked for and none follow. The size is a number of 32
-- bits.
pub get_property_reads :
    (t : PropertyTable) (w a : ℕ) (p : Property) (k : ℕ) (d : Bool) (o l : ℕ)
    → HasProperty t w a p
    → o * 4 ≤ byte_size p
    → byte_size p < 2 ^ 32
    → (k == 0 || k == p.kind) ≡ true
    → ((get_property w a k d o l t).1.value.content
        ≡ with_values p.content (part_of p.content o (min (byte_size p - o * 4) (l * 4))))
      × ((get_property w a k d o l t).1.value.bytes_after
            + min (byte_size p - o * 4) (l * 4)
            + o * 4
          ≡ byte_size p)
      × ((get_property w a k d o l t).1.deleted
          ≡ (d && (byte_size p == (min (byte_size p - o * 4) (l * 4) + o * 4))))
      × ((get_property w a k d o l t).1.value.kind ≡ p.kind)
unfolding read_property slice_property_data
get_property_reads t w a p k d o l has low small wanted =
    let e = get-read t w a p has k d o l in
    let inside : ltb (byte_size p) (o * 4) ≡ false = ground arith in
    let slice =
      slice_values_lem (value_size p.content) (values p.content) (o * 4)
        (min (byte_size p - o * 4) (l * 4)) in
    rw (e, inside, wanted, slice) (refl, ground arith, ground arith, refl)

pub with_own_values : (d : PropertyData) → with_values d (values d) ≡ d
with_own_values (PropertyData.bytes_8 vs) = refl
with_own_values (PropertyData.words_16 vs) = refl
with_own_values (PropertyData.words_32 vs) = refl

pub part_whole : (p : Property) (n : ℕ) → n ≡ byte_size p → part_of p.content 0 n ≡ values p.content
unfolding byte_size drop
part_whole p n e = whole p.content n e
  where
    whole :
        (d : PropertyData) (m : ℕ) → m ≡ length (values d) * value_size d → part_of d 0 m ≡ values d
    whole (PropertyData.bytes_8 vs) m h = take_all (m / 1) vs (omega arith)
    whole (PropertyData.words_16 vs) m h = take_all (m / 2) vs (omega arith)
    whole (PropertyData.words_32 vs) m h = take_all (m / 4) vs (omega arith)

-- Reading a property in two pieces, one after the other and cut at a multiple of four bytes, gives
-- the same values as reading it at once.
slice-in-two :
    (d : PropertyData) (o n m : ℕ)
    → values (slice_property_data d (o * 4) (n * 4))
        ++ values (slice_property_data d ((o + n) * 4) (m * 4))
      ≡ values (slice_property_data d (o * 4) ((n + m) * 4))
unfolding slice_property_data
slice-in-two d o n m = two d
  where
    two :
        (e : PropertyData)
        → values (slice_property_data e (o * 4) (n * 4))
            ++ values (slice_property_data e ((o + n) * 4) (m * 4))
          ≡ values (slice_property_data e (o * 4) ((n + m) * 4))
    two (PropertyData.bytes_8 vs) =
        let q : (o + n) * 4 / 1 ≡ o * 4 / 1 + n * 4 / 1 = omega arith in
        let r : (n + m) * 4 / 1 ≡ n * 4 / 1 + m * 4 / 1 = omega arith in
        rw
          (
            slice_values_lem 1 vs (o * 4) (n * 4),
            slice_values_lem 1 vs ((o + n) * 4) (m * 4),
            slice_values_lem 1 vs (o * 4) ((n + m) * 4),
            q,
            r,
          )
          (take_split (n * 4 / 1) (m * 4 / 1) (o * 4 / 1) vs)
    two (PropertyData.words_16 vs) =
        let q : (o + n) * 4 / 2 ≡ o * 4 / 2 + n * 4 / 2 = omega arith in
        let r : (n + m) * 4 / 2 ≡ n * 4 / 2 + m * 4 / 2 = omega arith in
        rw
          (
            slice_values_lem 2 vs (o * 4) (n * 4),
            slice_values_lem 2 vs ((o + n) * 4) (m * 4),
            slice_values_lem 2 vs (o * 4) ((n + m) * 4),
            q,
            r,
          )
          (take_split (n * 4 / 2) (m * 4 / 2) (o * 4 / 2) vs)
    two (PropertyData.words_32 vs) =
        let q : (o + n) * 4 / 4 ≡ o * 4 / 4 + n * 4 / 4 = omega arith in
        let r : (n + m) * 4 / 4 ≡ n * 4 / 4 + m * 4 / 4 = omega arith in
        rw
          (
            slice_values_lem 4 vs (o * 4) (n * 4),
            slice_values_lem 4 vs ((o + n) * 4) (m * 4),
            slice_values_lem 4 vs (o * 4) ((n + m) * 4),
            q,
            r,
          )
          (take_split (n * 4 / 4) (m * 4 / 4) (o * 4 / 4) vs)

changed_matches :
    (t t' : PropertyTable) (w a : ℕ) (v : Property) (mode : PropertyMode) (ps : NatMap Property)
    → change_in w ps a v mode t ≡ (t', PropertyMutationStatus.success)
    → mismatch (find a ps) v mode ≡ false
unfolding change_in
changed_matches t t' w a v mode ps c = elim (Bool-cases (mismatch (find a ps) v mode)) [
  | inl x ↦ absurd (ground (arith, c, x))
  | inr x ↦ x
]

pub change_property-matches :
    (t t' : PropertyTable) (w a : ℕ) (v : Property) (mode : PropertyMode) (ps : NatMap Property)
    → find w t.windows ≡ some ps
    → change_property w a v mode t ≡ (t', PropertyMutationStatus.success)
    → mismatch (find a ps) v mode ≡ false
unfolding change_property
change_property-matches t t' w a v mode ps e c =
    changed_matches t t' w a v mode ps (sym (rw (e, change_property) refl) ∙ c)

changed_windows :
    (t t' : PropertyTable) (w a : ℕ) (v : Property) (mode : PropertyMode) (ps : NatMap Property)
    → change_in w ps a v mode t ≡ (t', PropertyMutationStatus.success)
    → t'.windows ≡ insert w (insert a (replacement (find a ps) v mode) ps) t.windows
unfolding change_in
changed_windows t t' w a v mode ps c = elim (Bool-cases (mismatch (find a ps) v mode)) [
  | inl x ↦ absurd (ground (arith, c, x))
  | inr x ↦
      elim (Bool-cases
        (over_limits t ps (find a ps) (byte_size (replacement (find a ps) v mode)))) [
          | inl y ↦ absurd (ground (arith, c, x, y))
          | inr y ↦ ground (arith, c, x, y)
        ]
]

pub changed-HasProperty :
    (t t' : PropertyTable) (w a : ℕ) (v : Property) (mode : PropertyMode) (ps : NatMap Property)
    → find w t.windows ≡ some ps
    → change_property w a v mode t ≡ (t', PropertyMutationStatus.success)
    → HasProperty t' w a (replacement (find a ps) v mode)
unfolding change_property
changed-HasProperty t t' w a v mode ps e c =
    let new = replacement (find a ps) v mode in
    let windows : t'.windows ≡ insert w (insert a new ps) t.windows =
      changed_windows t t' w a v mode ps (sym (rw (e, change_property) refl) ∙ c) in
    (
      insert a new ps,
      ap (find w) windows ∙ (find-insert w w (insert a new ps) t.windows ∙ ground arith),
      find-insert a a new ps ∙ ground arith,
    )
