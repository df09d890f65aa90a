-- ===== src/Ipc/Policy/Settings.antt =====
-- src/ipc/wire/policy_contract.cpp: the context, the bindings and the commit of a policy.
use glasswyrm.Prelude.{
  ℕ, List, [], ◌∷◌, Option, none, some, Bool, not, ◌&&◌, ◌or◌, if◌then◌else◌, ltb, ◌==◌, ◌!=◌, ◌-◌,
  ◌^◌, bit_and, bit_or,
}
use glasswyrm.Prelude.Int.{ℤ, pos, ◌+ℤ◌, leb_ℤ}
use glasswyrm.Prelude.Sort.{bit}
use glasswyrm.Ipc.Bytes.{Reader}
use glasswyrm.Ipc.Fields.{
  ◌▸◌, Field, u8, u16, u32, u64, i32, Values, write_fields, Decoded, decode_fixed,
}

-- The function `extent`: the last coordinate of a size from a place on is an int32_t.
unfoldable pub has_extent : ℤ → ℕ → Bool
has_extent p n = n != 0 && leb_ℤ (p +ℤ pos n) (pos (2 ^ 31))

pub record PolicyContextUpsert : Type 0 where
  pub root_window_id : ℕ
  pub workspace_id : ℕ
  pub output_id : ℕ
  pub work_x : ℤ
  pub work_y : ℤ
  pub work_width : ℕ
  pub work_height : ℕ
  pub flags : ℕ

abbrev pub context_fields : List Field
context_fields = u32 ∷ u32 ∷ u64 ∷ i32 ∷ i32 ∷ u32 ∷ u32 ∷ u32 ∷ u32 ∷ []

unfoldable pub context_values : PolicyContextUpsert → Values context_fields
context_values value =
    (value.root_window_id ▸ value.workspace_id ▸ value.output_id ▸ value.work_x ▸ value.work_y
      ▸ value.work_width ▸ value.work_height ▸ value.flags ▸ 0 ▸ tt)

unfoldable pub check_context : Values context_fields → Option PolicyContextUpsert
check_context
      (root_window_id ▸ workspace_id ▸ output_id ▸ work_x ▸ work_y ▸ work_width ▸ work_height
        ▸ flags ▸ reserved1 ▸ end) =
    let value : PolicyContextUpsert = record {
      root_window_id = root_window_id;
      workspace_id = workspace_id;
      output_id = output_id;
      work_x = work_x;
      work_y = work_y;
      work_width = work_width;
      work_height = work_height;
      flags = flags;
    } in
    if root_window_id == 0
      or workspace_id == 0
      or output_id == 0
      or not (has_extent work_x work_width)
      or not (has_extent work_y work_height)
      or flags != 0
      or reserved1 != 0
    then none
    else some value

unfoldable pub encode_context : PolicyContextUpsert → List ℕ
encode_context value = write_fields context_fields (context_values value) []

unfoldable pub decode_context : Reader → Decoded PolicyContextUpsert
decode_context bytes = decode_fixed context_fields check_context bytes

pub record PolicyCommit : Type 0 where
  pub commit_id : ℕ
  pub producer_generation : ℕ
  pub flags : ℕ

abbrev pub commit_fields : List Field
commit_fields = u64 ∷ u64 ∷ u32 ∷ u32 ∷ []

unfoldable pub commit_values : PolicyCommit → Values commit_fields
commit_values value = (value.commit_id ▸ value.producer_generation ▸ value.flags ▸ 0 ▸ tt)

unfoldable pub check_commit : Values commit_fields → Option PolicyCommit
check_commit (commit_id ▸ producer_generation ▸ flags ▸ reserved1 ▸ end) =
    let value : PolicyCommit = record {
      commit_id = commit_id;
      producer_generation = producer_generation;
      flags = flags;
    } in
    if commit_id == 0 or producer_generation == 0 or flags != 0 or reserved1 != 0
    then none
    else some value

unfoldable pub encode_commit : PolicyCommit → List ℕ
encode_commit value = write_fields commit_fields (commit_values value) []

unfoldable pub decode_commit : Reader → Decoded PolicyCommit
decode_commit bytes = decode_fixed commit_fields check_commit bytes

pub record PolicyBindingsUpsert : Type 0 where
  pub move_modifiers : ℕ
  pub resize_modifiers : ℕ
  pub close_modifiers : ℕ
  pub move_button : ℕ
  pub resize_button : ℕ
  pub close_keysym : ℕ
  pub minimum_width : ℕ
  pub minimum_height : ℕ
  pub raise_on_focus : Bool
  pub consume_wm_bindings : Bool

abbrev pub bindings_fields : List Field
bindings_fields = u16 ∷ u16 ∷ u16 ∷ u16 ∷ u8 ∷ u8 ∷ u16 ∷ u32 ∷ u32 ∷ u32 ∷ u8 ∷ u8 ∷ u16 ∷ u32 ∷ []

unfoldable pub bindings_values : PolicyBindingsUpsert → Values bindings_fields
bindings_values value =
    (value.move_modifiers
      ▸ value.resize_modifiers
      ▸ value.close_modifiers
      ▸ 0
      ▸ value.move_button
      ▸ value.resize_button
      ▸ 0
      ▸ value.close_keysym
      ▸ value.minimum_width
      ▸ value.minimum_height
      ▸ bit value.raise_on_focus
      ▸ bit value.consume_wm_bindings
      ▸ 0
      ▸ 0
      ▸ tt)

unfoldable pub check_bindings : Values bindings_fields → Option PolicyBindingsUpsert
check_bindings
      (move_modifiers ▸ resize_modifiers ▸ close_modifiers ▸ reserved1 ▸ move_button ▸ resize_button
        ▸ reserved2 ▸ close_keysym ▸ minimum_width ▸ minimum_height ▸ raise_on_focus
        ▸ consume_wm_bindings ▸ reserved3 ▸ reserved4 ▸ end) =
    let value : PolicyBindingsUpsert = record {
      move_modifiers = move_modifiers;
      resize_modifiers = resize_modifiers;
      close_modifiers = close_modifiers;
      move_button = move_button;
      resize_button = resize_button;
      close_keysym = close_keysym;
      minimum_width = minimum_width;
      minimum_height = minimum_height;
      raise_on_focus = raise_on_focus != 0;
      consume_wm_bindings = consume_wm_bindings != 0;
    } in
    if bit_and (bit_or (bit_or move_modifiers resize_modifiers) close_modifiers) (2 ^ 16 - 1 - 255)
        != 0
      or ltb move_button 1
      or ltb 9 move_button
      or ltb resize_button 1
      or ltb 9 resize_button
      or close_keysym == 0
      or minimum_width == 0
      or minimum_height == 0
      or ltb 16384 minimum_width
      or ltb 16384 minimum_height
      or reserved1 != 0
      or reserved2 != 0
      or reserved3 != 0
      or reserved4 != 0
      or ltb 1 raise_on_focus
      or ltb 1 consume_wm_bindings
    then none
    else some value

unfoldable pub encode_bindings : PolicyBindingsUpsert → List ℕ
encode_bindings value = write_fields bindings_fields (bindings_values value) []

unfoldable pub decode_bindings : Reader → Decoded PolicyBindingsUpsert
decode_bindings bytes = decode_fixed bindings_fields check_bindings bytes
