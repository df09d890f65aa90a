-- ===== src/Ipc/Lifecycle/RoundTrip.antt =====
-- Each of these payloads is decoded exactly from its encoding.
use glasswyrm.Prelude.{◌≡◌, ◌↔◌, arith, some}
use glasswyrm.Ipc.Bytes.{Reader}
use glasswyrm.Ipc.Bytes.Laws.{AreBytes}
use glasswyrm.Ipc.Fields.{◌▸◌, Values, decoded}
use glasswyrm.Ipc.Fields.Laws.{decode_fixed_iff}
use glasswyrm.Ipc.Fields.Layout.{AllFit}
use glasswyrm.Ipc.Lifecycle.{
  SurfacePolicyUpsert, surface_policy_fields, surface_policy_values, check_surface_policy,
  encode_surface_policy, decode_surface_policy,
}

surface_policy_taken :
    (vs : Values surface_policy_fields) (a : SurfacePolicyUpsert)
    → check_surface_policy vs ≡ some a
    → surface_policy_values a ≡ vs
unfolding check_surface_policy surface_policy_values
surface_policy_taken
      (surface_id ▸ x11_window_id ▸ workspace_id ▸ window_type ▸ applied_state ▸ focused ▸ managed
        ▸ decoration_eligible ▸ override_redirect ▸ attention_requested ▸ fullscreen_eligible
        ▸ direct_scanout_eligible ▸ reserved1 ▸ flags ▸ reserved2 ▸ end)
      a e =
    ground (arith, e)

-- Bytes are decoded to the policy of a surface exactly if they are its encoding, its fields have
-- their widths and it passes the checks of the decoder.
decode_surface_policy_iff :
    (bytes : Reader) (v : SurfacePolicyUpsert)
    → AreBytes bytes
    → (decode_surface_policy bytes ≡ decoded v) ↔ (
        (bytes ≡ encode_surface_policy v)
        × AllFit surface_policy_fields (surface_policy_values v)
        × (check_surface_policy (surface_policy_values v) ≡ some v))
unfolding decode_surface_policy encode_surface_policy
decode_surface_policy_iff bytes v b =
    decode_fixed_iff surface_policy_fields surface_policy_values check_surface_policy
      surface_policy_taken bytes v b
