-- ===== src/Ipc/Input/RoundTrip.antt =====
-- Each of these payloads is decoded exactly from its encoding.
use glasswyrm.Prelude.{◌≡◌, ◌↔◌, arith, some}
use glasswyrm.Ipc.Bytes.{Reader}
use glasswyrm.Ipc.Bytes.Laws.{AreBytes}
use glasswyrm.Ipc.Fields.{◌▸◌, Values, decoded}
use glasswyrm.Ipc.Fields.Laws.{decode_fixed_iff}
use glasswyrm.Ipc.Fields.Layout.{AllFit}
use glasswyrm.Ipc.Input.{
  SyntheticMotion, motion_fields, motion_values, check_motion, encode_motion, decode_motion,
  SyntheticButton, button_fields, button_values, check_button, encode_button, decode_button,
  SyntheticKey, key_fields, key_values, check_key, encode_key, decode_key, SyntheticBarrier,
  barrier_fields, barrier_values, check_barrier, encode_barrier, decode_barrier,
  SyntheticInputAcknowledged, input_acknowledged_fields, input_acknowledged_values,
  check_input_acknowledged, encode_input_acknowledged, decode_input_acknowledged,
}

motion_taken :
    (vs : Values motion_fields) (a : SyntheticMotion)
    → check_motion vs ≡ some a
    → motion_values a ≡ vs
unfolding check_motion motion_values
motion_taken (input_id ▸ time_ms ▸ root_x ▸ root_y ▸ flags ▸ end) a e = ground (arith, e)

-- Bytes are decoded to a motion exactly if they are its encoding, its fields have their widths and
-- it passes the checks of the decoder.
decode_motion_iff :
    (bytes : Reader) (v : SyntheticMotion)
    → AreBytes bytes
    → (decode_motion bytes ≡ decoded v) ↔ (
        (bytes ≡ encode_motion v)
        × AllFit motion_fields (motion_values v)
        × (check_motion (motion_values v) ≡ some v))
unfolding decode_motion encode_motion
decode_motion_iff bytes v b =
    decode_fixed_iff motion_fields motion_values check_motion motion_taken bytes v b

button_taken :
    (vs : Values button_fields) (a : SyntheticButton)
    → check_button vs ≡ some a
    → button_values a ≡ vs
unfolding check_button button_values
button_taken (input_id ▸ time_ms ▸ button ▸ pressed ▸ reserved16 ▸ flags ▸ end) a e =
    ground (arith, e)

-- Bytes are decoded to a button exactly if they are its encoding, its fields have their widths and
-- it passes the checks of the decoder.
decode_button_iff :
    (bytes : Reader) (v : SyntheticButton)
    → AreBytes bytes
    → (decode_button bytes ≡ decoded v) ↔ (
        (bytes ≡ encode_button v)
        × AllFit button_fields (button_values v)
        × (check_button (button_values v) ≡ some v))
unfolding decode_button encode_button
decode_button_iff bytes v b =
    decode_fixed_iff button_fields button_values check_button button_taken bytes v b

key_taken : (vs : Values key_fields) (a : SyntheticKey) → check_key vs ≡ some a → key_values a ≡ vs
unfolding check_key key_values
key_taken (input_id ▸ time_ms ▸ keycode ▸ pressed ▸ reserved16 ▸ flags ▸ end) a e =
    ground (arith, e)

-- Bytes are decoded to a key exactly if they are its encoding, its fields have their widths and it
-- passes the checks of the decoder.
decode_key_iff :
    (bytes : Reader) (v : SyntheticKey)
    → AreBytes bytes
    → (decode_key bytes ≡ decoded v) ↔ (
        (bytes ≡ encode_key v)
        × AllFit key_fields (key_values v)
        × (check_key (key_values v) ≡ some v))
unfolding decode_key encode_key
decode_key_iff bytes v b = decode_fixed_iff key_fields key_values check_key key_taken bytes v b

barrier_taken :
    (vs : Values barrier_fields) (a : SyntheticBarrier)
    → check_barrier vs ≡ some a
    → barrier_values a ≡ vs
unfolding check_barrier barrier_values
barrier_taken (input_id ▸ flags ▸ end) a e = ground (arith, e)

-- Bytes are decoded to a barrier exactly if they are its encoding, its fields have their widths and
-- it passes the checks of the decoder.
decode_barrier_iff :
    (bytes : Reader) (v : SyntheticBarrier)
    → AreBytes bytes
    → (decode_barrier bytes ≡ decoded v) ↔ (
        (bytes ≡ encode_barrier v)
        × AllFit barrier_fields (barrier_values v)
        × (check_barrier (barrier_values v) ≡ some v))
unfolding decode_barrier encode_barrier
decode_barrier_iff bytes v b =
    decode_fixed_iff barrier_fields barrier_values check_barrier barrier_taken bytes v b

input_acknowledged_taken :
    (vs : Values input_acknowledged_fields) (a : SyntheticInputAcknowledged)
    → check_input_acknowledged vs ≡ some a
    → input_acknowledged_values a ≡ vs
unfolding check_input_acknowledged input_acknowledged_values
input_acknowledged_taken
      (input_id ▸ time_ms ▸ result ▸ root_x ▸ root_y ▸ pointer_window ▸ focus_window ▸ state
        ▸ reserved16 ▸ delivered_event_count ▸ flags ▸ end)
      a e =
    ground (arith, e)

-- Bytes are decoded to an acknowledgement of input exactly if they are its encoding, its fields have
-- their widths and it passes the checks of the decoder.
decode_input_acknowledged_iff :
    (bytes : Reader) (v : SyntheticInputAcknowledged)
    → AreBytes bytes
    → (decode_input_acknowledged bytes ≡ decoded v) ↔ (
        (bytes ≡ encode_input_acknowledged v)
        × AllFit input_acknowledged_fields (input_acknowledged_values v)
        × (check_input_acknowledged (input_acknowledged_values v) ≡ some v))
unfolding decode_input_acknowledged encode_input_acknowledged
decode_input_acknowledged_iff bytes v b =
    decode_fixed_iff input_acknowledged_fields input_acknowledged_values check_input_acknowledged
      input_acknowledged_taken bytes v b
