-- ===== src/Ipc/Session/RoundTrip.antt =====
-- A session payload is decoded exactly from its encoding.
use glasswyrm.Prelude.{◌≡◌, ◌≤◌, ◌<◌, ◌^◌, arith, ◌∙◌, ap, ◌↔◌, []}
use glasswyrm.Ipc.Bytes.{Reader}
use glasswyrm.Ipc.Bytes.Laws.{AreBytes}
use glasswyrm.Ipc.Fields.{◌▸◌, decoded, Values, write_fields}
use glasswyrm.Ipc.Fields.Laws.{decode_fixed-write, decode_fixed_inv}
use glasswyrm.Ipc.Session.{
  SessionStateChange, SessionStateAcknowledged, session_fields, encode_change, check_change,
  decode_change, encode_acknowledged, check_acknowledged, decode_acknowledged,
}

abbrev pub IsChange : SessionStateChange → Type 0
IsChange v =
    (0 < v.generation) × (v.generation < 2 ^ 64) × (1 ≤ v.state) × (v.state ≤ 2) × (v.flags ≡ 0)

abbrev pub IsAcknowledged : SessionStateAcknowledged → Type 0
IsAcknowledged v =
    (0 < v.generation)
    × (v.generation < 2 ^ 64)
    × (1 ≤ v.state)
    × (v.state ≤ 2)
    × (1 ≤ v.result)
    × (v.result ≤ 4)
    × (v.flags ≡ 0)

-- Bytes are decoded to a change of the session exactly if they are its encoding and it is a valid
-- one: with a generation, one of the two states and no flags.
decode_change_iff :
    (bytes : Reader) (v : SessionStateChange)
    → AreBytes bytes
    → (decode_change bytes ≡ decoded v) ↔ ((bytes ≡ encode_change v) × IsChange v)
unfolding decode_change encode_change check_change
decode_change_iff bytes v b = (
  (λ e.
      let (vs, c, fit, w) = decode_fixed_inv session_fields check_change bytes v b e in
      let same : vs ≡ (v.generation ▸ v.state ▸ 0 ▸ v.flags ▸ tt) = ground (arith, c) in
      (
        w ∙ ap (λ (xs : Values session_fields). write_fields session_fields xs []) same,
        ground (arith, c, fit),
      )),
  λ h. rw h.0 (
      decode_fixed-write session_fields check_change (v.generation ▸ v.state ▸ 0 ▸ v.flags ▸ tt) v
        (ground (arith, h)) (ground (arith, h))),
)

-- Bytes are decoded to an acknowledgement of the session exactly if they are its encoding and it is
-- a valid one: with a generation, one of the two states, one of the four results and no flags.
decode_acknowledged_lem :
    (bytes : Reader) (v : SessionStateAcknowledged)
    → AreBytes bytes
    → (decode_acknowledged bytes ≡ decoded v) ↔ ((bytes ≡ encode_acknowledged v) × IsAcknowledged v)
unfolding decode_acknowledged encode_acknowledged check_acknowledged
decode_acknowledged_lem bytes v b = (
  (λ e.
      let (vs, c, fit, w) = decode_fixed_inv session_fields check_acknowledged bytes v b e in
      let same : vs ≡ (v.generation ▸ v.state ▸ v.result ▸ v.flags ▸ tt) = ground (arith, c) in
      (
        w ∙ ap (λ (xs : Values session_fields). write_fields session_fields xs []) same,
        ground (arith, c, fit),
      )),
  λ h. rw h.0 (
      decode_fixed-write session_fields check_acknowledged
        (v.generation ▸ v.state ▸ v.result ▸ v.flags ▸ tt) v (ground (arith, h))
        (ground (arith, h))),
)
