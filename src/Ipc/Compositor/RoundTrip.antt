-- ===== src/Ipc/Compositor/RoundTrip.antt =====
-- Each of these payloads is decoded exactly from its encoding.
use glasswyrm.Prelude.{◌≡◌, ◌↔◌, arith, some}
use glasswyrm.Ipc.Bytes.{Reader}
use glasswyrm.Ipc.Bytes.Laws.{AreBytes}
use glasswyrm.Ipc.Fields.{◌▸◌, Values, decoded}
use glasswyrm.Ipc.Fields.Laws.{decode_fixed_iff}
use glasswyrm.Ipc.Fields.Layout.{AllFit}
use glasswyrm.Ipc.Compositor.{
  OutputRemove, output_remove_fields, output_remove_values, check_output_remove,
  encode_output_remove, decode_output_remove, SurfaceRemove, surface_remove_fields,
  surface_remove_values, check_surface_remove, encode_surface_remove, decode_surface_remove,
  BufferDetach, buffer_detach_fields, buffer_detach_values, check_buffer_detach,
  encode_buffer_detach, decode_buffer_detach, BufferRelease, buffer_release_fields,
  buffer_release_values, check_buffer_release, encode_buffer_release, decode_buffer_release,
  FrameCommit, frame_commit_fields, frame_commit_values, check_frame_commit, encode_frame_commit,
  decode_frame_commit, FrameAcknowledged, frame_acknowledged_fields, frame_acknowledged_values,
  check_frame_acknowledged, encode_frame_acknowledged, decode_frame_acknowledged,
}

output_remove_taken :
    (vs : Values output_remove_fields) (a : OutputRemove)
    → check_output_remove vs ≡ some a
    → output_remove_values a ≡ vs
unfolding check_output_remove output_remove_values
output_remove_taken (output_id ▸ end) a e = ground (arith, e)

-- Bytes are decoded to the removal of an output exactly if they are its encoding, its fields have
-- their widths and it passes the checks of the decoder.
decode_output_remove_iff :
    (bytes : Reader) (v : OutputRemove)
    → AreBytes bytes
    → (decode_output_remove bytes ≡ decoded v) ↔ (
        (bytes ≡ encode_output_remove v)
        × AllFit output_remove_fields (output_remove_values v)
        × (check_output_remove (output_remove_values v) ≡ some v))
unfolding decode_output_remove encode_output_remove
decode_output_remove_iff bytes v b =
    decode_fixed_iff output_remove_fields output_remove_values check_output_remove
      output_remove_taken bytes v b

surface_remove_taken :
    (vs : Values surface_remove_fields) (a : SurfaceRemove)
    → check_surface_remove vs ≡ some a
    → surface_remove_values a ≡ vs
unfolding check_surface_remove surface_remove_values
surface_remove_taken (surface_id ▸ end) a e = ground (arith, e)

-- Bytes are decoded to the removal of a surface exactly if they are its encoding, its fields have
-- their widths and it passes the checks of the decoder.
decode_surface_remove_iff :
    (bytes : Reader) (v : SurfaceRemove)
    → AreBytes bytes
    → (decode_surface_remove bytes ≡ decoded v) ↔ (
        (bytes ≡ encode_surface_remove v)
        × AllFit surface_remove_fields (surface_remove_values v)
        × (check_surface_remove (surface_remove_values v) ≡ some v))
unfolding decode_surface_remove encode_surface_remove
decode_surface_remove_iff bytes v b =
    decode_fixed_iff surface_remove_fields surface_remove_values check_surface_remove
      surface_remove_taken bytes v b

buffer_detach_taken :
    (vs : Values buffer_detach_fields) (a : BufferDetach)
    → check_buffer_detach vs ≡ some a
    → buffer_detach_values a ≡ vs
unfolding check_buffer_detach buffer_detach_values
buffer_detach_taken (surface_id ▸ buffer_id ▸ end) a e = ground (arith, e)

-- Bytes are decoded to a detachment exactly if they are its encoding, its fields have their widths
-- and it passes the checks of the decoder.
decode_buffer_detach_iff :
    (bytes : Reader) (v : BufferDetach)
    → AreBytes bytes
    → (decode_buffer_detach bytes ≡ decoded v) ↔ (
        (bytes ≡ encode_buffer_detach v)
        × AllFit buffer_detach_fields (buffer_detach_values v)
        × (check_buffer_detach (buffer_detach_values v) ≡ some v))
unfolding decode_buffer_detach encode_buffer_detach
decode_buffer_detach_iff bytes v b =
    decode_fixed_iff buffer_detach_fields buffer_detach_values check_buffer_detach
      buffer_detach_taken bytes v b

buffer_release_taken :
    (vs : Values buffer_release_fields) (a : BufferRelease)
    → check_buffer_release vs ≡ some a
    → buffer_release_values a ≡ vs
unfolding check_buffer_release buffer_release_values
buffer_release_taken (buffer_id ▸ reason ▸ reserved1 ▸ reserved2 ▸ end) a e = ground (arith, e)

-- Bytes are decoded to a release of a buffer exactly if they are its encoding, its fields have their
-- widths and it passes the checks of the decoder.
decode_buffer_release_iff :
    (bytes : Reader) (v : BufferRelease)
    → AreBytes bytes
    → (decode_buffer_release bytes ≡ decoded v) ↔ (
        (bytes ≡ encode_buffer_release v)
        × AllFit buffer_release_fields (buffer_release_values v)
        × (check_buffer_release (buffer_release_values v) ≡ some v))
unfolding decode_buffer_release encode_buffer_release
decode_buffer_release_iff bytes v b =
    decode_fixed_iff buffer_release_fields buffer_release_values check_buffer_release
      buffer_release_taken bytes v b

frame_commit_taken :
    (vs : Values frame_commit_fields) (a : FrameCommit)
    → check_frame_commit vs ≡ some a
    → frame_commit_values a ≡ vs
unfolding check_frame_commit frame_commit_values
frame_commit_taken (commit_id ▸ output_id ▸ producer_generation ▸ flags ▸ reserved1 ▸ end) a e =
    ground (arith, e)

-- Bytes are decoded to a commit of a frame exactly if they are its encoding, its fields have their
-- widths and it passes the checks of the decoder.
decode_frame_commit_iff :
    (bytes : Reader) (v : FrameCommit)
    → AreBytes bytes
    → (decode_frame_commit bytes ≡ decoded v) ↔ (
        (bytes ≡ encode_frame_commit v)
        × AllFit frame_commit_fields (frame_commit_values v)
        × (check_frame_commit (frame_commit_values v) ≡ some v))
unfolding decode_frame_commit encode_frame_commit
decode_frame_commit_iff bytes v b =
    decode_fixed_iff frame_commit_fields frame_commit_values check_frame_commit frame_commit_taken
      bytes v b

frame_acknowledged_taken :
    (vs : Values frame_acknowledged_fields) (a : FrameAcknowledged)
    → check_frame_acknowledged vs ≡ some a
    → frame_acknowledged_values a ≡ vs
unfolding check_frame_acknowledged frame_acknowledged_values
frame_acknowledged_taken
      (commit_id ▸ output_id ▸ presented_generation ▸ result ▸ reserved1 ▸ reserved2 ▸ end) a e =
    ground (arith, e)

-- Bytes are decoded to an acknowledgement of a frame exactly if they are its encoding, its fields
-- have their widths and it passes the checks of the decoder.
decode_frame_acknowledged_iff :
    (bytes : Reader) (v : FrameAcknowledged)
    → AreBytes bytes
    → (decode_frame_acknowledged bytes ≡ decoded v) ↔ (
        (bytes ≡ encode_frame_acknowledged v)
        × AllFit frame_acknowledged_fields (frame_acknowledged_values v)
        × (check_frame_acknowledged (frame_acknowledged_values v) ≡ some v))
unfolding decode_frame_acknowledged encode_frame_acknowledged
decode_frame_acknowledged_iff bytes v b =
    decode_fixed_iff frame_acknowledged_fields frame_acknowledged_values check_frame_acknowledged
      frame_acknowledged_taken bytes v b
