-- ===== src/Ipc/Compositor.antt =====
-- src/ipc/wire/compositor_contract.hpp and compositor_contract.cpp: the payloads without a color. An
-- enum is its value.
pub mod RoundTrip
use glasswyrm.Prelude.{
  ℕ, List, [], ◌∷◌, Option, none, some, Bool, true, false, not, ◌&&◌, ◌||◌, ◌or◌, if◌then◌else◌,
  ltb, leb, ◌==◌, ◌!=◌, ◌+◌, ◌-◌, ◌*◌, ◌^◌, ◌%◌, bit_and, bit_or, length,
}
use glasswyrm.Prelude.Int.{ℤ, pos, ◌+ℤ◌, leb_ℤ, ltb_ℤ, eqb_ℤ}
use glasswyrm.Prelude.Sort.{bit}
use glasswyrm.Ipc.Bytes.{Reader}
use glasswyrm.Ipc.Fields.{
  ◌▸◌, Field, u8, u16, u32, u64, i32, array, Values, write_fields, Decoded, decode_fixed,
}

pub record OutputRemove : Type 0 where
  pub output_id : ℕ

abbrev pub output_remove_fields : List Field
output_remove_fields = u64 ∷ []

unfoldable pub output_remove_values : OutputRemove → Values output_remove_fields
output_remove_values value = (value.output_id ▸ tt)

unfoldable pub check_output_remove : Values output_remove_fields → Option OutputRemove
check_output_remove (output_id ▸ end) =
    let value : OutputRemove = record { output_id = output_id } in
    if output_id == 0 then none else some value

unfoldable pub encode_output_remove : OutputRemove → List ℕ
encode_output_remove value = write_fields output_remove_fields (output_remove_values value) []

unfoldable pub decode_output_remove : Reader → Decoded OutputRemove
decode_output_remove bytes = decode_fixed output_remove_fields check_output_remove bytes

pub record SurfaceRemove : Type 0 where
  pub surface_id : ℕ

abbrev pub surface_remove_fields : List Field
surface_remove_fields = u64 ∷ []

unfoldable pub surface_remove_values : SurfaceRemove → Values surface_remove_fields
surface_remove_values value = (value.surface_id ▸ tt)

unfoldable pub check_surface_remove : Values surface_remove_fields → Option SurfaceRemove
check_surface_remove (surface_id ▸ end) =
    let value : SurfaceRemove = record { surface_id = surface_id } in
    if surface_id == 0 then none else some value

unfoldable pub encode_surface_remove : SurfaceRemove → List ℕ
encode_surface_remove value = write_fields surface_remove_fields (surface_remove_values value) []

unfoldable pub decode_surface_remove : Reader → Decoded SurfaceRemove
decode_surface_remove bytes = decode_fixed surface_remove_fields check_surface_remove bytes

pub record BufferDetach : Type 0 where
  pub surface_id : ℕ
  pub buffer_id : ℕ

abbrev pub buffer_detach_fields : List Field
buffer_detach_fields = u64 ∷ u64 ∷ []

unfoldable pub buffer_detach_values : BufferDetach → Values buffer_detach_fields
buffer_detach_values value = (value.surface_id ▸ value.buffer_id ▸ tt)

unfoldable pub check_buffer_detach : Values buffer_detach_fields → Option BufferDetach
check_buffer_detach (surface_id ▸ buffer_id ▸ end) =
    let value : BufferDetach = record { surface_id = surface_id; buffer_id = buffer_id } in
    if surface_id == 0 or buffer_id == 0 then none else some value

unfoldable pub encode_buffer_detach : BufferDetach → List ℕ
encode_buffer_detach value = write_fields buffer_detach_fields (buffer_detach_values value) []

unfoldable pub decode_buffer_detach : Reader → Decoded BufferDetach
decode_buffer_detach bytes = decode_fixed buffer_detach_fields check_buffer_detach bytes

pub record BufferRelease : Type 0 where
  pub buffer_id : ℕ
  pub reason : ℕ

abbrev pub buffer_release_fields : List Field
buffer_release_fields = u64 ∷ u16 ∷ u16 ∷ u32 ∷ []

unfoldable pub buffer_release_values : BufferRelease → Values buffer_release_fields
buffer_release_values value = (value.buffer_id ▸ value.reason ▸ 0 ▸ 0 ▸ tt)

unfoldable pub check_buffer_release : Values buffer_release_fields → Option BufferRelease
check_buffer_release (buffer_id ▸ reason ▸ reserved1 ▸ reserved2 ▸ end) =
    let value : BufferRelease = record { buffer_id = buffer_id; reason = reason } in
    if buffer_id == 0 or ltb reason 1 or ltb 4 reason or reserved1 != 0 or reserved2 != 0
    then none
    else some value

unfoldable pub encode_buffer_release : BufferRelease → List ℕ
encode_buffer_release value = write_fields buffer_release_fields (buffer_release_values value) []

unfoldable pub decode_buffer_release : Reader → Decoded BufferRelease
decode_buffer_release bytes = decode_fixed buffer_release_fields check_buffer_release bytes

pub record FrameCommit : Type 0 where
  pub commit_id : ℕ
  pub output_id : ℕ
  pub producer_generation : ℕ
  pub flags : ℕ

abbrev pub frame_commit_fields : List Field
frame_commit_fields = u64 ∷ u64 ∷ u64 ∷ u32 ∷ u32 ∷ []

unfoldable pub frame_commit_values : FrameCommit → Values frame_commit_fields
frame_commit_values value =
    (value.commit_id ▸ value.output_id ▸ value.producer_generation ▸ value.flags ▸ 0 ▸ tt)

unfoldable pub check_frame_commit : Values frame_commit_fields → Option FrameCommit
check_frame_commit (commit_id ▸ output_id ▸ producer_generation ▸ flags ▸ reserved1 ▸ end) =
    let value : FrameCommit = record {
      commit_id = commit_id;
      output_id = output_id;
      producer_generation = producer_generation;
      flags = flags;
    } in
    if commit_id == 0 or flags != 0 or reserved1 != 0 then none else some value

unfoldable pub encode_frame_commit : FrameCommit → List ℕ
encode_frame_commit value = write_fields frame_commit_fields (frame_commit_values value) []

unfoldable pub decode_frame_commit : Reader → Decoded FrameCommit
decode_frame_commit bytes = decode_fixed frame_commit_fields check_frame_commit bytes

pub record FrameAcknowledged : Type 0 where
  pub commit_id : ℕ
  pub output_id : ℕ
  pub presented_generation : ℕ
  pub result : ℕ

abbrev pub frame_acknowledged_fields : List Field
frame_acknowledged_fields = u64 ∷ u64 ∷ u64 ∷ u16 ∷ u16 ∷ u32 ∷ []

unfoldable pub frame_acknowledged_values : FrameAcknowledged → Values frame_acknowledged_fields
frame_acknowledged_values value =
    (value.commit_id ▸ value.output_id ▸ value.presented_generation ▸ value.result ▸ 0 ▸ 0 ▸ tt)

unfoldable pub check_frame_acknowledged :
    Values frame_acknowledged_fields → Option FrameAcknowledged
check_frame_acknowledged
      (commit_id ▸ output_id ▸ presented_generation ▸ result ▸ reserved1 ▸ reserved2 ▸ end) =
    let value : FrameAcknowledged = record {
      commit_id = commit_id;
      output_id = output_id;
      presented_generation = presented_generation;
      result = result;
    } in
    if commit_id == 0 or ltb result 1 or ltb 5 result or reserved1 != 0 or reserved2 != 0
    then none
    else some value

unfoldable pub encode_frame_acknowledged : FrameAcknowledged → List ℕ
encode_frame_acknowledged value =
    write_fields frame_acknowledged_fields (frame_acknowledged_values value) []

unfoldable pub decode_frame_acknowledged : Reader → Decoded FrameAcknowledged
decode_frame_acknowledged bytes =
    decode_fixed frame_acknowledged_fields check_frame_acknowledged bytes
