-- ===== src/Server/PropertyStore.antt =====
-- src/glasswyrmd/property.hpp, property.cpp and property_store.cpp, with the fields of the resource
-- table that they read: the windows with their properties, the limits and the count of bytes.
-- Allocations do not fail. std::size_t has 64 bits.
mod Data
pub mod Slices
pub mod Counting
pub mod Accounting
pub mod Reading
pub mod Stored
pub mod Examples
unfoldable pub use Data.*
use glasswyrm.Prelude.{
  ℕ, zero, suc, Bool, true, false, List, [], ◌∷◌, ◌++◌, Option, none, some, is_some, ◌&&◌, ◌||◌,
  not, if◌then◌else◌, ltb, leb, ◌==◌, ◌!=◌, ◌+◌, ◌-◌, ◌*◌, ◌/◌, ◌%◌, ◌^◌, length, min,
}
use glasswyrm.Prelude.Map.{NatMap, find, contains, insert, erase, keys}

pub record ResourceLimits : Type 0 where
  pub maximum_bytes_per_property : ℕ
  pub maximum_total_property_bytes : ℕ
  pub maximum_properties_per_window : ℕ

-- The windows by their numbers, each with its properties by their atoms.
pub record PropertyTable : Type 0 where
  pub windows : NatMap (NatMap Property)
  pub limits : ResourceLimits
  pub total_property_bytes : ℕ

pub data PropertyMutationStatus : Type 0 where
  success bad_window bad_match bad_alloc : PropertyMutationStatus

pub data PropertyReadStatus : Type 0 where
  success bad_window bad_value : PropertyReadStatus

pub record PropertyReadResult : Type 0 where
  pub status : PropertyReadStatus
  present : Bool
  type_matched : Bool
  pub deleted : Bool
  pub value : PropertySlice

-- A difference of two numbers of type std::size_t.
abbrev pub sub_size : ℕ → ℕ → ℕ
sub_size a b = (a + 2 ^ 64 - b) % 2 ^ 64

abbrev pub size_or_0 : Option Property → ℕ
size_or_0 none = 0
size_or_0 (some p) = byte_size p

abbrev pub is_replace : PropertyMode → Bool
is_replace replace = true
is_replace prepend = false
is_replace append = false

-- Whether a property that is there forbids the change.
unfoldable pub mismatch : Option Property → Property → PropertyMode → Bool
mismatch none value mode = false
mismatch (some current) value mode =
    not (is_replace mode)
    && (current.kind != value.kind || format_of current.content != format_of value.content)

-- The new value, with the data of the property that is there.
unfoldable pub replacement : Option Property → Property → PropertyMode → Property
replacement none value mode = value
replacement (some current) value replace = value
replacement (some current) value append = record value {
  content = concatenate_property_data current.content value.content;
}
replacement (some current) value prepend = record value {
  content = concatenate_property_data value.content current.content;
}

-- The test that answers BadAlloc.
unfoldable pub over_limits : PropertyTable → NatMap Property → Option Property → ℕ → Bool
over_limits t properties current new_size =
    ltb t.limits.maximum_bytes_per_property new_size
    || ((not (is_some current) && leb t.limits.maximum_properties_per_window (length properties))
        || ltb
            (sub_size t.limits.maximum_total_property_bytes
              (sub_size t.total_property_bytes (size_or_0 current)))
            new_size)

-- change_property on a window that was found.
unfoldable pub change_in :
    ℕ
    → NatMap Property
    → ℕ
    → Property
    → PropertyMode
    → PropertyTable
    → PropertyTable × PropertyMutationStatus
change_in window properties property_atom value mode t =
    let current = find property_atom properties in
    let new_value = replacement current value mode in
    if mismatch current value mode
    then (t, PropertyMutationStatus.bad_match)
    else (if over_limits t properties current (byte_size new_value)
        then (t, PropertyMutationStatus.bad_alloc)
        else (
          record t {
            windows = insert window (insert property_atom new_value properties) t.windows;
            total_property_bytes =
                (sub_size t.total_property_bytes (size_or_0 current) + byte_size new_value)
                % 2 ^ 64;
          },
          PropertyMutationStatus.success,
        ))

unfoldable pub change_property :
    ℕ → ℕ → Property → PropertyMode → PropertyTable → PropertyTable × PropertyMutationStatus
change_property window property_atom value mode t = elim (find window t.windows) [
  | none ↦ (t, PropertyMutationStatus.bad_window)
  | some properties ↦ change_in window properties property_atom value mode t
]

-- The table without one of the properties of a window.
unfoldable pub remove_in : ℕ → NatMap Property → ℕ → Property → PropertyTable → PropertyTable
remove_in window properties property_atom p t = record t {
  windows = insert window (erase property_atom properties) t.windows;
  total_property_bytes = sub_size t.total_property_bytes (byte_size p);
}

unfoldable pub delete_in : ℕ → NatMap Property → ℕ → PropertyTable → PropertyTable × Bool
delete_in window properties property_atom t = elim (find property_atom properties) [
  | none ↦ (t, true)
  | some p ↦ (remove_in window properties property_atom p t, true)
]

unfoldable pub delete_property : ℕ → ℕ → PropertyTable → PropertyTable × Bool
delete_property window property_atom t = elim (find window t.windows) [
  | none ↦ (t, false)
  | some properties ↦ delete_in window properties property_atom t
]

abbrev pub empty_slice : PropertySlice
empty_slice = record { kind = 0; format = 0; bytes_after = 0; content = bytes_8 [] }

abbrev pub empty_result : PropertyReadResult
empty_result = record {
  status = PropertyReadStatus.success;
  present = false;
  type_matched = false;
  deleted = false;
  value = empty_slice;
}

-- get_property of a property that was found.
unfoldable pub read_property :
    ℕ
    → NatMap Property
    → ℕ
    → Property
    → ℕ
    → Bool
    → ℕ
    → ℕ
    → PropertyTable
    → PropertyTable × PropertyReadResult
read_property window properties property_atom p requested_type delete_after_read long_offset
      long_length t =
    let offset = long_offset * 4 in
    let available = byte_size p - offset in
    let returned = min available (long_length * 4) in
    let bytes_after = (available - returned) % 2 ^ 32 in
    let deleted = delete_after_read && bytes_after == 0 in
    if ltb (byte_size p) offset
    then (t, record empty_result { status = PropertyReadStatus.bad_value })
    else (if not (requested_type == 0 || requested_type == p.kind)
        then (
          t,
          record empty_result {
            present = true;
            value = record {
              kind = p.kind;
              format = format_of p.content;
              bytes_after = byte_size p % 2 ^ 32;
              content = bytes_8 [];
            };
          },
        )
        else (
          if deleted then remove_in window properties property_atom p t else t,
          record {
            status = PropertyReadStatus.success;
            present = true;
            type_matched = true;
            deleted = deleted;
            value = record {
              kind = p.kind;
              format = format_of p.content;
              bytes_after = bytes_after;
              content = slice_property_data p.content offset returned;
            };
          },
        ))

unfoldable pub read_in :
    ℕ → NatMap Property → ℕ → ℕ → Bool → ℕ → ℕ → PropertyTable → PropertyTable × PropertyReadResult
read_in window properties property_atom requested_type delete_after_read long_offset long_length t =
    elim (find property_atom properties) [
      | none ↦ (t, empty_result)
      | some p ↦
          read_property window properties property_atom p requested_type delete_after_read
            long_offset long_length t
    ]

unfoldable pub get_property :
    ℕ → ℕ → ℕ → Bool → ℕ → ℕ → PropertyTable → PropertyTable × PropertyReadResult
get_property window property_atom requested_type delete_after_read long_offset long_length t =
    elim (find window t.windows) [
      | none ↦ (t, record empty_result { status = PropertyReadStatus.bad_window })
      | some properties ↦
          read_in window properties property_atom requested_type delete_after_read long_offset
            long_length t
    ]

-- The atoms in ascending order, which is the order of the map here.
unfoldable pub list_properties : ℕ → PropertyTable → List ℕ
list_properties window t = elim (find window t.windows) [
  | none ↦ []
  | some properties ↦ keys properties
]
