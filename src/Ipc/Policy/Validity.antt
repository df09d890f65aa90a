-- ===== src/Ipc/Policy/Validity.antt =====
-- Which windows the decoder of a policy accepts.
use glasswyrm.Prelude.{◌≡◌, ◌≢◌, ◌≤◌, ◌⊎◌, ◌↔◌, bit_and, arith, some}
use glasswyrm.Ipc.Bytes.{Reader}
use glasswyrm.Ipc.Bytes.Laws.{AreBytes}
use glasswyrm.Ipc.Fields.{decoded}
use glasswyrm.Ipc.Fields.Layout.{AllFit}
use glasswyrm.Ipc.Policy.{
  PolicyWindowUpsert, window_fields, window_values, check_window, encode_window, decode_window,
}
use glasswyrm.Ipc.Policy.RoundTrip.{decode_window_lem}

-- A window that may be sent: with a number and a size, one of the types, map intents and decoration
-- preferences, created, with a map serial if it is to be mapped, and no flags but the lowest three.
abbrev pub IsWindow : PolicyWindowUpsert → Type 0
IsWindow v =
    (v.window_id ≢ 0)
    × (v.requested_width ≢ 0)
    × (v.requested_height ≢ 0)
    × (v.window_type ≤ 3)
    × (v.map_intent ≤ 1)
    × (v.decoration_preference ≤ 2)
    × (v.creation_serial ≢ 0)
    × ((v.map_intent ≡ 0) ⊎ (v.map_serial ≢ 0))
    × (bit_and v.flags 4294967288 ≡ 0)

check_window-IsWindow :
    (v : PolicyWindowUpsert) → check_window (window_values v) ≡ some v → IsWindow v
unfolding check_window window_values
check_window-IsWindow v e = ground (arith, e)

IsWindow-check : (v : PolicyWindowUpsert) → IsWindow v → check_window (window_values v) ≡ some v
unfolding check_window window_values
IsWindow-check v h = ground (arith, h)

-- Bytes are decoded to a window exactly if they are its encoding, its fields have their widths, and it
-- has a number, a size and a creation serial, one of the types, map intents and decoration
-- preferences, a map serial if it is to be mapped, and no flags but the lowest three. A window that
-- is not to be mapped may have any map serial.
pub decode_window_iff :
    (bytes : Reader) (v : PolicyWindowUpsert)
    → AreBytes bytes
    → (decode_window bytes ≡ decoded v)
      ↔ ((bytes ≡ encode_window v) × AllFit window_fields (window_values v) × IsWindow v)
decode_window_iff bytes v b =
    let fields = decode_window_lem bytes v b in
    (
      (λ e. let h = fields.0 e in (h.0, h.1, check_window-IsWindow v h.2)),
      λ h. fields.1 (h.0, h.1, IsWindow-check v h.2),
    )
