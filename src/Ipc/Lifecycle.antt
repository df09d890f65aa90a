-- ===== src/Ipc/Lifecycle.antt =====
-- src/ipc/wire/lifecycle_contract.hpp and lifecycle_contract.cpp: the policy of a surface. An enum
-- is its value.
pub mod RoundTrip
use glasswyrm.Prelude.{
  ℕ, List, [], ◌∷◌, Option, none, some, Bool, true, false, not, ◌&&◌, ◌||◌, ◌or◌, if◌then◌else◌,
  ltb, leb, ◌==◌, ◌!=◌, ◌+◌, ◌-◌, ◌*◌, ◌^◌, ◌%◌, bit_and, bit_or, length,
}
use glasswyrm.Prelude.Int.{ℤ, pos, ◌+ℤ◌, leb_ℤ, ltb_ℤ, eqb_ℤ}
use glasswyrm.Prelude.Sort.{bit}
use glasswyrm.Ipc.Bytes.{Reader}
use glasswyrm.Ipc.Fields.{
  ◌▸◌, Field, u8, u16, u32, u64, i32, array, Values, write_fields, Decoded, decode_fixed,
}

pub record SurfacePolicyUpsert : Type 0 where
  pub surface_id : ℕ
  pub x11_window_id : ℕ
  pub workspace_id : ℕ
  pub window_type : ℕ
  pub applied_state : ℕ
  pub focused : Bool
  pub managed : Bool
  pub decoration_eligible : Bool
  pub override_redirect : Bool
  pub attention_requested : Bool
  pub fullscreen_eligible : ℕ
  pub direct_scanout_eligible : ℕ
  pub flags : ℕ

abbrev pub surface_policy_fields : List Field
surface_policy_fields =
    u64 ∷ u32 ∷ u32 ∷ u16 ∷ u16 ∷ u8 ∷ u8 ∷ u8 ∷ u8 ∷ u8 ∷ u8 ∷ u8 ∷ u8 ∷ u32 ∷ u32 ∷ []

unfoldable pub surface_policy_values : SurfacePolicyUpsert → Values surface_policy_fields
surface_policy_values value =
    (value.surface_id
      ▸ value.x11_window_id
      ▸ value.workspace_id
      ▸ value.window_type
      ▸ value.applied_state
      ▸ bit value.focused
      ▸ bit value.managed
      ▸ bit value.decoration_eligible
      ▸ bit value.override_redirect
      ▸ bit value.attention_requested
      ▸ value.fullscreen_eligible % 2 ^ 8
      ▸ value.direct_scanout_eligible % 2 ^ 8
      ▸ 0
      ▸ value.flags
      ▸ 0
      ▸ tt)

unfoldable pub check_surface_policy : Values surface_policy_fields → Option SurfacePolicyUpsert
check_surface_policy
      (surface_id ▸ x11_window_id ▸ workspace_id ▸ window_type ▸ applied_state ▸ focused ▸ managed
        ▸ decoration_eligible ▸ override_redirect ▸ attention_requested ▸ fullscreen_eligible
        ▸ direct_scanout_eligible ▸ reserved1 ▸ flags ▸ reserved2 ▸ end) =
    let value : SurfacePolicyUpsert = record {
      surface_id = surface_id;
      x11_window_id = x11_window_id;
      workspace_id = workspace_id;
      window_type = window_type;
      applied_state = applied_state;
      focused = focused != 0;
      managed = managed != 0;
      decoration_eligible = decoration_eligible != 0;
      override_redirect = override_redirect != 0;
      attention_requested = attention_requested != 0;
      fullscreen_eligible = fullscreen_eligible;
      direct_scanout_eligible = direct_scanout_eligible;
      flags = flags;
    } in
    if surface_id == 0
      or x11_window_id == 0
      or workspace_id == 0
      or ltb 3 window_type
      or ltb applied_state 1
      or ltb 4 applied_state
      or ltb 2 fullscreen_eligible
      or ltb 2 direct_scanout_eligible
      or flags != 0
      or reserved1 != 0
      or reserved2 != 0
      or ltb 1 focused
      or ltb 1 managed
      or ltb 1 decoration_eligible
      or ltb 1 override_redirect
      or ltb 1 attention_requested
    then none
    else some value

unfoldable pub encode_surface_policy : SurfacePolicyUpsert → List ℕ
encode_surface_policy value = write_fields surface_policy_fields (surface_policy_values value) []

unfoldable pub decode_surface_policy : Reader → Decoded SurfacePolicyUpsert
decode_surface_policy bytes = decode_fixed surface_policy_fields check_surface_policy bytes
