-- ===== src/Ipc/Policy/Windows.antt =====
-- src/ipc/wire/policy_contract.cpp: the windows that a policy is asked about.
use glasswyrm.Prelude.{
  ℕ, List, [], ◌∷◌, Option, none, some, Bool, ◌&&◌, ◌or◌, if◌then◌else◌, ltb, ◌==◌, ◌!=◌, ◌-◌, ◌^◌,
  ◌%◌, bit_and,
}
use glasswyrm.Prelude.Int.{ℤ}
use glasswyrm.Prelude.Sort.{bit}
use glasswyrm.Ipc.Bytes.{Reader}
use glasswyrm.Ipc.Fields.{
  ◌▸◌, Field, u8, u16, u32, u64, i32, Values, write_fields, Decoded, decode_fixed,
}

pub record PolicyWindowUpsert : Type 0 where
  pub window_id : ℕ
  pub parent_window_id : ℕ
  pub transient_for : ℕ
  pub workspace_id : ℕ
  pub requested_x : ℤ
  pub requested_y : ℤ
  pub requested_width : ℕ
  pub requested_height : ℕ
  pub border_width : ℕ
  pub window_type : ℕ
  pub map_intent : ℕ
  pub override_redirect : Bool
  pub decoration_preference : ℕ
  pub fullscreen_requested : Bool
  pub maximized_requested : Bool
  pub minimized_requested : Bool
  pub attention_requested : Bool
  pub creation_serial : ℕ
  pub map_serial : ℕ
  pub focus_serial : ℕ
  pub flags : ℕ

abbrev pub window_fields : List Field
window_fields =
    u32 ∷ u32 ∷ u32 ∷ u32 ∷ i32 ∷ i32 ∷ u32 ∷ u32 ∷ u32 ∷ u16 ∷ u16 ∷ u8 ∷ u8 ∷ u8 ∷ u8 ∷ u8 ∷ u8
    ∷ u16 ∷ u64 ∷ u64 ∷ u64 ∷ u32 ∷ u32 ∷ []

unfoldable pub window_values : PolicyWindowUpsert → Values window_fields
window_values value =
    (value.window_id
      ▸ value.parent_window_id
      ▸ value.transient_for
      ▸ value.workspace_id
      ▸ value.requested_x
      ▸ value.requested_y
      ▸ value.requested_width
      ▸ value.requested_height
      ▸ value.border_width
      ▸ value.window_type
      ▸ value.map_intent
      ▸ bit value.override_redirect
      ▸ value.decoration_preference % 2 ^ 8
      ▸ bit value.fullscreen_requested
      ▸ bit value.maximized_requested
      ▸ bit value.minimized_requested
      ▸ bit value.attention_requested
      ▸ 0
      ▸ value.creation_serial
      ▸ value.map_serial
      ▸ value.focus_serial
      ▸ value.flags
      ▸ 0
      ▸ tt)

unfoldable pub check_window : Values window_fields → Option PolicyWindowUpsert
check_window
      (window_id ▸ parent_window_id ▸ transient_for ▸ workspace_id ▸ requested_x ▸ requested_y
        ▸ requested_width ▸ requested_height ▸ border_width ▸ window_type ▸ map_intent
        ▸ override_redirect ▸ decoration_preference ▸ fullscreen_requested ▸ maximized_requested
        ▸ minimized_requested ▸ attention_requested ▸ reserved1 ▸ creation_serial ▸ map_serial
        ▸ focus_serial ▸ flags ▸ reserved2 ▸ end) =
    let value : PolicyWindowUpsert = record {
      window_id = window_id;
      parent_window_id = parent_window_id;
      transient_for = transient_for;
      workspace_id = workspace_id;
      requested_x = requested_x;
      requested_y = requested_y;
      requested_width = requested_width;
      requested_height = requested_height;
      border_width = border_width;
      window_type = window_type;
      map_intent = map_intent;
      override_redirect = override_redirect != 0;
      decoration_preference = decoration_preference;
      fullscreen_requested = fullscreen_requested != 0;
      maximized_requested = maximized_requested != 0;
      minimized_requested = minimized_requested != 0;
      attention_requested = attention_requested != 0;
      creation_serial = creation_serial;
      map_serial = map_serial;
      focus_serial = focus_serial;
      flags = flags;
    } in
    if window_id == 0
      or requested_width == 0
      or requested_height == 0
      or ltb 3 window_type
      or ltb 1 map_intent
      or ltb 2 decoration_preference
      or creation_serial == 0
      or map_intent != 0 && map_serial == 0
      or bit_and flags (2 ^ 32 - 1 - 7) != 0
      or reserved1 != 0
      or reserved2 != 0
      or ltb 1 override_redirect
      or ltb 1 fullscreen_requested
      or ltb 1 maximized_requested
      or ltb 1 minimized_requested
      or ltb 1 attention_requested
    then none
    else some value

unfoldable pub encode_window : PolicyWindowUpsert → List ℕ
encode_window value = write_fields window_fields (window_values value) []

unfoldable pub decode_window : Reader → Decoded PolicyWindowUpsert
decode_window bytes = decode_fixed window_fields check_window bytes

pub record PolicyWindowRemove : Type 0 where
  pub window_id : ℕ

abbrev pub window_remove_fields : List Field
window_remove_fields = u32 ∷ u32 ∷ []

unfoldable pub window_remove_values : PolicyWindowRemove → Values window_remove_fields
window_remove_values value = (value.window_id ▸ 0 ▸ tt)

unfoldable pub check_window_remove : Values window_remove_fields → Option PolicyWindowRemove
check_window_remove (window_id ▸ reserved1 ▸ end) =
    let value : PolicyWindowRemove = record { window_id = window_id } in
    if window_id == 0 or reserved1 != 0 then none else some value

unfoldable pub encode_window_remove : PolicyWindowRemove → List ℕ
encode_window_remove value = write_fields window_remove_fields (window_remove_values value) []

unfoldable pub decode_window_remove : Reader → Decoded PolicyWindowRemove
decode_window_remove bytes = decode_fixed window_remove_fields check_window_remove bytes
