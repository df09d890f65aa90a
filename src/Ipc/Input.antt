-- ===== src/Ipc/Input.antt =====
-- src/ipc/wire/input_contract.hpp and input_contract.cpp. An enum is its value.
pub mod RoundTrip
use glasswyrm.Prelude.{
  ℕ, List, [], ◌∷◌, Option, none, some, Bool, true, false, not, ◌&&◌, ◌||◌, ◌or◌, if◌then◌else◌,
  ltb, leb, ◌==◌, ◌!=◌, ◌+◌, ◌-◌, ◌*◌, ◌^◌, ◌%◌, bit_and, bit_or, length,
}
use glasswyrm.Prelude.Int.{ℤ, pos, ◌+ℤ◌, leb_ℤ, ltb_ℤ, eqb_ℤ}
use glasswyrm.Prelude.Sort.{bit}
use glasswyrm.Ipc.Bytes.{Reader}
use glasswyrm.Ipc.Fields.{
  ◌▸◌, Field, u8, u16, u32, u64, i32, array, Values, write_fields, Decoded, decode_fixed,
}

pub record SyntheticMotion : Type 0 where
  pub input_id : ℕ
  pub time_ms : ℕ
  pub root_x : ℤ
  pub root_y : ℤ
  pub flags : ℕ

abbrev pub motion_fields : List Field
motion_fields = u64 ∷ u32 ∷ i32 ∷ i32 ∷ u32 ∷ []

unfoldable pub motion_values : SyntheticMotion → Values motion_fields
motion_values value =
    (value.input_id ▸ value.time_ms ▸ value.root_x ▸ value.root_y ▸ value.flags ▸ tt)

unfoldable pub check_motion : Values motion_fields → Option SyntheticMotion
check_motion (input_id ▸ time_ms ▸ root_x ▸ root_y ▸ flags ▸ end) =
    let value : SyntheticMotion = record {
      input_id = input_id;
      time_ms = time_ms;
      root_x = root_x;
      root_y = root_y;
      flags = flags;
    } in
    if input_id == 0 or time_ms == 0 or flags != 0 then none else some value

unfoldable pub encode_motion : SyntheticMotion → List ℕ
encode_motion value = write_fields motion_fields (motion_values value) []

unfoldable pub decode_motion : Reader → Decoded SyntheticMotion
decode_motion bytes = decode_fixed motion_fields check_motion bytes

pub record SyntheticButton : Type 0 where
  pub input_id : ℕ
  pub time_ms : ℕ
  pub button : ℕ
  pub pressed : ℕ
  pub reserved16 : ℕ
  pub flags : ℕ

abbrev pub button_fields : List Field
button_fields = u64 ∷ u32 ∷ u8 ∷ u8 ∷ u16 ∷ u32 ∷ []

unfoldable pub button_values : SyntheticButton → Values button_fields
button_values value =
    (value.input_id ▸ value.time_ms ▸ value.button ▸ value.pressed ▸ value.reserved16 ▸ value.flags
      ▸ tt)

unfoldable pub check_button : Values button_fields → Option SyntheticButton
check_button (input_id ▸ time_ms ▸ button ▸ pressed ▸ reserved16 ▸ flags ▸ end) =
    let value : SyntheticButton = record {
      input_id = input_id;
      time_ms = time_ms;
      button = button;
      pressed = pressed;
      reserved16 = reserved16;
      flags = flags;
    } in
    if input_id == 0
      or time_ms == 0
      or ltb button 1
      or ltb 5 button
      or ltb 1 pressed
      or flags != 0
      or reserved16 != 0
    then none
    else some value

unfoldable pub encode_button : SyntheticButton → List ℕ
encode_button value = write_fields button_fields (button_values value) []

unfoldable pub decode_button : Reader → Decoded SyntheticButton
decode_button bytes = decode_fixed button_fields check_button bytes

pub record SyntheticKey : Type 0 where
  pub input_id : ℕ
  pub time_ms : ℕ
  pub keycode : ℕ
  pub pressed : ℕ
  pub reserved16 : ℕ
  pub flags : ℕ

abbrev pub key_fields : List Field
key_fields = u64 ∷ u32 ∷ u8 ∷ u8 ∷ u16 ∷ u32 ∷ []

unfoldable pub key_values : SyntheticKey → Values key_fields
key_values value =
    (value.input_id ▸ value.time_ms ▸ value.keycode ▸ value.pressed ▸ value.reserved16 ▸ value.flags
      ▸ tt)

unfoldable pub check_key : Values key_fields → Option SyntheticKey
check_key (input_id ▸ time_ms ▸ keycode ▸ pressed ▸ reserved16 ▸ flags ▸ end) =
    let value : SyntheticKey = record {
      input_id = input_id;
      time_ms = time_ms;
      keycode = keycode;
      pressed = pressed;
      reserved16 = reserved16;
      flags = flags;
    } in
    if input_id == 0
      or time_ms == 0
      or ltb keycode 8
      or ltb 1 pressed
      or flags != 0
      or reserved16 != 0
    then none
    else some value

unfoldable pub encode_key : SyntheticKey → List ℕ
encode_key value = write_fields key_fields (key_values value) []

unfoldable pub decode_key : Reader → Decoded SyntheticKey
decode_key bytes = decode_fixed key_fields check_key bytes

pub record SyntheticBarrier : Type 0 where
  pub input_id : ℕ
  pub flags : ℕ

abbrev pub barrier_fields : List Field
barrier_fields = u64 ∷ u32 ∷ []

unfoldable pub barrier_values : SyntheticBarrier → Values barrier_fields
barrier_values value = (value.input_id ▸ value.flags ▸ tt)

unfoldable pub check_barrier : Values barrier_fields → Option SyntheticBarrier
check_barrier (input_id ▸ flags ▸ end) =
    let value : SyntheticBarrier = record { input_id = input_id; flags = flags } in
    if input_id == 0 or flags != 0 then none else some value

unfoldable pub encode_barrier : SyntheticBarrier → List ℕ
encode_barrier value = write_fields barrier_fields (barrier_values value) []

unfoldable pub decode_barrier : Reader → Decoded SyntheticBarrier
decode_barrier bytes = decode_fixed barrier_fields check_barrier bytes

pub record SyntheticInputAcknowledged : Type 0 where
  pub input_id : ℕ
  pub time_ms : ℕ
  pub result : ℕ
  pub root_x : ℤ
  pub root_y : ℤ
  pub pointer_window : ℕ
  pub focus_window : ℕ
  pub state : ℕ
  pub reserved16 : ℕ
  pub delivered_event_count : ℕ
  pub flags : ℕ

abbrev pub input_acknowledged_fields : List Field
input_acknowledged_fields = u64 ∷ u32 ∷ u16 ∷ i32 ∷ i32 ∷ u32 ∷ u32 ∷ u16 ∷ u16 ∷ u32 ∷ u32 ∷ []

unfoldable pub input_acknowledged_values :
    SyntheticInputAcknowledged → Values input_acknowledged_fields
input_acknowledged_values value =
    (value.input_id ▸ value.time_ms ▸ value.result ▸ value.root_x ▸ value.root_y
      ▸ value.pointer_window ▸ value.focus_window ▸ value.state ▸ value.reserved16
      ▸ value.delivered_event_count ▸ value.flags ▸ tt)

unfoldable pub check_input_acknowledged :
    Values input_acknowledged_fields → Option SyntheticInputAcknowledged
check_input_acknowledged
      (input_id ▸ time_ms ▸ result ▸ root_x ▸ root_y ▸ pointer_window ▸ focus_window ▸ state
        ▸ reserved16 ▸ delivered_event_count ▸ flags ▸ end) =
    let value : SyntheticInputAcknowledged = record {
      input_id = input_id;
      time_ms = time_ms;
      result = result;
      root_x = root_x;
      root_y = root_y;
      pointer_window = pointer_window;
      focus_window = focus_window;
      state = state;
      reserved16 = reserved16;
      delivered_event_count = delivered_event_count;
      flags = flags;
    } in
    if input_id == 0
      or time_ms == 0
      or ltb result 1
      or ltb 6 result
      or flags != 0
      or reserved16 != 0
    then none
    else some value

unfoldable pub encode_input_acknowledged : SyntheticInputAcknowledged → List ℕ
encode_input_acknowledged value =
    write_fields input_acknowledged_fields (input_acknowledged_values value) []

unfoldable pub decode_input_acknowledged : Reader → Decoded SyntheticInputAcknowledged
decode_input_acknowledged bytes =
    decode_fixed input_acknowledged_fields check_input_acknowledged bytes
