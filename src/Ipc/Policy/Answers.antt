-- ===== src/Ipc/Policy/Answers.antt =====
-- src/ipc/wire/policy_contract.cpp: the state of a window that a policy gives, and the acknowledgement.
use glasswyrm.Prelude.{
  ℕ, List, [], ◌∷◌, Option, none, some, Bool, ◌or◌, if◌then◌else◌, ltb, ◌==◌, ◌!=◌, ◌^◌, ◌%◌,
}
use glasswyrm.Prelude.Int.{ℤ}
use glasswyrm.Prelude.Sort.{bit}
use glasswyrm.Ipc.Bytes.{Reader}
use glasswyrm.Ipc.Fields.{
  ◌▸◌, Field, u8, u16, u32, u64, i32, Values, write_fields, Decoded, decode_fixed,
}

-- The conversion to eight bits of `(std::uint8_t)`.
unfoldable pub narrow_8 : ℕ → ℕ
narrow_8 value = value % 2 ^ 8

pub record PolicyWindowState : Type 0 where
  pub window_id : ℕ
  pub transient_for : ℕ
  pub workspace_id : ℕ
  pub output_id : ℕ
  pub final_x : ℤ
  pub final_y : ℤ
  pub final_width : ℕ
  pub final_height : ℕ
  pub stacking : ℤ
  pub window_type : ℕ
  pub applied_state : ℕ
  pub visible : Bool
  pub focused : Bool
  pub managed : Bool
  pub decoration_eligible : Bool
  pub override_redirect : Bool
  pub attention_requested : Bool
  pub fullscreen_eligible : ℕ
  pub direct_scanout_eligible : ℕ
  pub flags : ℕ

abbrev pub window_state_fields : List Field
window_state_fields =
    u32 ∷ u32 ∷ u32 ∷ u32 ∷ u64 ∷ i32 ∷ i32 ∷ u32 ∷ u32 ∷ i32 ∷ u16 ∷ u16 ∷ u8 ∷ u8 ∷ u8 ∷ u8 ∷ u8
    ∷ u8 ∷ u8 ∷ u8 ∷ u32 ∷ u32 ∷ []

unfoldable pub window_state_values : PolicyWindowState → Values window_state_fields
window_state_values value =
    (value.window_id
      ▸ value.transient_for
      ▸ value.workspace_id
      ▸ 0
      ▸ value.output_id
      ▸ value.final_x
      ▸ value.final_y
      ▸ value.final_width
      ▸ value.final_height
      ▸ value.stacking
      ▸ value.window_type
      ▸ value.applied_state
      ▸ bit value.visible
      ▸ bit value.focused
      ▸ bit value.managed
      ▸ bit value.decoration_eligible
      ▸ bit value.override_redirect
      ▸ bit value.attention_requested
      ▸ narrow_8 value.fullscreen_eligible
      ▸ narrow_8 value.direct_scanout_eligible
      ▸ value.flags
      ▸ 0
      ▸ tt)

unfoldable pub check_window_state : Values window_state_fields → Option PolicyWindowState
check_window_state
      (window_id ▸ transient_for ▸ workspace_id ▸ reserved1 ▸ output_id ▸ final_x ▸ final_y
        ▸ final_width ▸ final_height ▸ stacking ▸ window_type ▸ applied_state ▸ visible ▸ focused
        ▸ managed ▸ decoration_eligible ▸ override_redirect ▸ attention_requested
        ▸ fullscreen_eligible ▸ direct_scanout_eligible ▸ flags ▸ reserved2 ▸ end) =
    let value : PolicyWindowState = record {
      window_id = window_id;
      transient_for = transient_for;
      workspace_id = workspace_id;
      output_id = output_id;
      final_x = final_x;
      final_y = final_y;
      final_width = final_width;
      final_height = final_height;
      stacking = stacking;
      window_type = window_type;
      applied_state = applied_state;
      visible = visible != 0;
      focused = focused != 0;
      managed = managed != 0;
      decoration_eligible = decoration_eligible != 0;
      override_redirect = override_redirect != 0;
      attention_requested = attention_requested != 0;
      fullscreen_eligible = fullscreen_eligible;
      direct_scanout_eligible = direct_scanout_eligible;
      flags = flags;
    } in
    if window_id == 0
      or workspace_id == 0
      or output_id == 0
      or final_width == 0
      or final_height == 0
      or ltb 3 window_type
      or ltb applied_state 1
      or ltb 4 applied_state
      or ltb 2 fullscreen_eligible
      or ltb 2 direct_scanout_eligible
      or flags != 0
      or reserved1 != 0
      or reserved2 != 0
      or ltb 1 visible
      or ltb 1 focused
      or ltb 1 managed
      or ltb 1 decoration_eligible
      or ltb 1 override_redirect
      or ltb 1 attention_requested
    then none
    else some value

unfoldable pub encode_window_state : PolicyWindowState → List ℕ
encode_window_state value = write_fields window_state_fields (window_state_values value) []

unfoldable pub decode_window_state : Reader → Decoded PolicyWindowState
decode_window_state bytes = decode_fixed window_state_fields check_window_state bytes

pub record PolicyAcknowledged : Type 0 where
  pub commit_id : ℕ
  pub producer_generation : ℕ
  pub applied_generation : ℕ
  pub policy_hash : ℕ
  pub window_count : ℕ
  pub result : ℕ

abbrev pub acknowledged_fields : List Field
acknowledged_fields = u64 ∷ u64 ∷ u64 ∷ u64 ∷ u32 ∷ u16 ∷ u16 ∷ []

unfoldable pub acknowledged_values : PolicyAcknowledged → Values acknowledged_fields
acknowledged_values value =
    (value.commit_id ▸ value.producer_generation ▸ value.applied_generation ▸ value.policy_hash
      ▸ value.window_count ▸ value.result ▸ 0 ▸ tt)

unfoldable pub check_acknowledged : Values acknowledged_fields → Option PolicyAcknowledged
check_acknowledged
      (commit_id ▸ producer_generation ▸ applied_generation ▸ policy_hash ▸ window_count ▸ result
        ▸ reserved1 ▸ end) =
    let value : PolicyAcknowledged = record {
      commit_id = commit_id;
      producer_generation = producer_generation;
      applied_generation = applied_generation;
      policy_hash = policy_hash;
      window_count = window_count;
      result = result;
    } in
    if commit_id == 0 or producer_generation == 0 or ltb result 1 or ltb 7 result or reserved1 != 0
    then none
    else some value

unfoldable pub encode_acknowledged : PolicyAcknowledged → List ℕ
encode_acknowledged value = write_fields acknowledged_fields (acknowledged_values value) []

unfoldable pub decode_acknowledged : Reader → Decoded PolicyAcknowledged
decode_acknowledged bytes = decode_fixed acknowledged_fields check_acknowledged bytes
