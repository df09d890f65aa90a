-- ===== src/Ipc/Policy/RoundTrip.antt =====
-- A policy payload is decoded exactly from its encoding.
use glasswyrm.Prelude.{ℕ, ltb, false, Bool-cases, inl, inr, ◌≡◌, ◌↔◌, arith, some}
use glasswyrm.Ipc.Bytes.{Reader}
use glasswyrm.Ipc.Bytes.Laws.{AreBytes}
use glasswyrm.Ipc.Fields.{◌▸◌, Values, decoded}
use glasswyrm.Ipc.Fields.Laws.{decode_fixed_iff}
use glasswyrm.Ipc.Fields.Layout.{AllFit}
use glasswyrm.Ipc.Policy.{
  PolicyContextUpsert, context_fields, context_values, check_context, encode_context,
  decode_context, PolicyWindowUpsert, window_fields, window_values, check_window, encode_window,
  decode_window, PolicyWindowRemove, window_remove_fields, window_remove_values,
  check_window_remove, encode_window_remove, decode_window_remove, PolicyCommit, commit_fields,
  commit_values, check_commit, encode_commit, decode_commit, narrow_8, PolicyWindowState,
  window_state_fields, window_state_values, check_window_state, encode_window_state,
  decode_window_state, PolicyAcknowledged, acknowledged_fields, acknowledged_values,
  check_acknowledged, encode_acknowledged, decode_acknowledged, PolicyBindingsUpsert,
  bindings_fields, bindings_values, check_bindings, encode_bindings, decode_bindings,
}

context_taken :
    (vs : Values context_fields) (a : PolicyContextUpsert)
    → check_context vs ≡ some a
    → context_values a ≡ vs
unfolding check_context context_values
context_taken
      (root_window_id ▸ workspace_id ▸ output_id ▸ work_x ▸ work_y ▸ work_width ▸ work_height
        ▸ flags ▸ reserved1 ▸ end)
      a e =
    ground (arith, e)

-- Bytes are decoded to a policy context exactly if they are its encoding, its fields have their
-- widths and it passes the checks of the decoder.
decode_context_iff :
    (bytes : Reader) (v : PolicyContextUpsert)
    → AreBytes bytes
    → (decode_context bytes ≡ decoded v) ↔ (
        (bytes ≡ encode_context v)
        × AllFit context_fields (context_values v)
        × (check_context (context_values v) ≡ some v))
unfolding decode_context encode_context
decode_context_iff bytes v b =
    decode_fixed_iff context_fields context_values check_context context_taken bytes v b

window_taken :
    (vs : Values window_fields) (a : PolicyWindowUpsert)
    → check_window vs ≡ some a
    → window_values a ≡ vs
unfolding check_window window_values
window_taken
      (window_id ▸ parent_window_id ▸ transient_for ▸ workspace_id ▸ requested_x ▸ requested_y
        ▸ requested_width ▸ requested_height ▸ border_width ▸ window_type ▸ map_intent
        ▸ override_redirect ▸ decoration_preference ▸ fullscreen_requested ▸ maximized_requested
        ▸ minimized_requested ▸ attention_requested ▸ reserved1 ▸ creation_serial ▸ map_serial
        ▸ focus_serial ▸ flags ▸ reserved2 ▸ end)
      a e =
    ground (arith, e)

-- Bytes are decoded to a window exactly if they are its encoding, its fields have their widths and
-- it passes the checks of the decoder.
pub decode_window_lem :
    (bytes : Reader) (v : PolicyWindowUpsert)
    → AreBytes bytes
    → (decode_window bytes ≡ decoded v) ↔ (
        (bytes ≡ encode_window v)
        × AllFit window_fields (window_values v)
        × (check_window (window_values v) ≡ some v))
unfolding decode_window encode_window
decode_window_lem bytes v b =
    decode_fixed_iff window_fields window_values check_window window_taken bytes v b

window_remove_taken :
    (vs : Values window_remove_fields) (a : PolicyWindowRemove)
    → check_window_remove vs ≡ some a
    → window_remove_values a ≡ vs
unfolding check_window_remove window_remove_values
window_remove_taken (window_id ▸ reserved1 ▸ end) a e = ground (arith, e)

-- Bytes are decoded to the removal of a window exactly if they are its encoding, its fields have
-- their widths and it passes the checks of the decoder.
decode_window_remove_iff :
    (bytes : Reader) (v : PolicyWindowRemove)
    → AreBytes bytes
    → (decode_window_remove bytes ≡ decoded v) ↔ (
        (bytes ≡ encode_window_remove v)
        × AllFit window_remove_fields (window_remove_values v)
        × (check_window_remove (window_remove_values v) ≡ some v))
unfolding decode_window_remove encode_window_remove
decode_window_remove_iff bytes v b =
    decode_fixed_iff window_remove_fields window_remove_values check_window_remove
      window_remove_taken bytes v b

commit_taken :
    (vs : Values commit_fields) (a : PolicyCommit) → check_commit vs ≡ some a → commit_values a ≡ vs
unfolding check_commit commit_values
commit_taken (commit_id ▸ producer_generation ▸ flags ▸ reserved1 ▸ end) a e = ground (arith, e)

-- Bytes are decoded to a commit exactly if they are its encoding, its fields have their widths and
-- it passes the checks of the decoder.
decode_commit_iff :
    (bytes : Reader) (v : PolicyCommit)
    → AreBytes bytes
    → (decode_commit bytes ≡ decoded v) ↔ (
        (bytes ≡ encode_commit v)
        × AllFit commit_fields (commit_values v)
        × (check_commit (commit_values v) ≡ some v))
unfolding decode_commit encode_commit
decode_commit_iff bytes v b =
    decode_fixed_iff commit_fields commit_values check_commit commit_taken bytes v b

narrow_8-small : (n : ℕ) → ltb 2 n ≡ false → narrow_8 n ≡ n
unfolding narrow_8
narrow_8-small n e = ground arith

window_state_taken :
    (vs : Values window_state_fields) (a : PolicyWindowState)
    → check_window_state vs ≡ some a
    → window_state_values a ≡ vs
unfolding check_window_state window_state_values
window_state_taken
      (window_id ▸ transient_for ▸ workspace_id ▸ reserved1 ▸ output_id ▸ final_x ▸ final_y
        ▸ final_width ▸ final_height ▸ stacking ▸ window_type ▸ applied_state ▸ visible ▸ focused
        ▸ managed ▸ decoration_eligible ▸ override_redirect ▸ attention_requested
        ▸ fullscreen_eligible ▸ direct_scanout_eligible ▸ flags ▸ reserved2 ▸ end)
      a e =
    elim (Bool-cases (ltb 2 fullscreen_eligible)) [
      | inl bad ↦ ground (arith, bad, e)
      | inr small ↦ elim (Bool-cases (ltb 2 direct_scanout_eligible)) [
        | inl bad ↦ ground (arith, bad, e)
        | inr also_small ↦ ground (
          arith,
          narrow_8-small fullscreen_eligible small,
          narrow_8-small direct_scanout_eligible also_small,
          e,
        )
      ]
    ]

-- Bytes are decoded to the state of a window exactly if they are its encoding, its fields have their
-- widths and it passes the checks of the decoder.
decode_window_state_iff :
    (bytes : Reader) (v : PolicyWindowState)
    → AreBytes bytes
    → (decode_window_state bytes ≡ decoded v) ↔ (
        (bytes ≡ encode_window_state v)
        × AllFit window_state_fields (window_state_values v)
        × (check_window_state (window_state_values v) ≡ some v))
unfolding decode_window_state encode_window_state
decode_window_state_iff bytes v b =
    decode_fixed_iff window_state_fields window_state_values check_window_state window_state_taken
      bytes v b

acknowledged_taken :
    (vs : Values acknowledged_fields) (a : PolicyAcknowledged)
    → check_acknowledged vs ≡ some a
    → acknowledged_values a ≡ vs
unfolding check_acknowledged acknowledged_values
acknowledged_taken
      (commit_id ▸ producer_generation ▸ applied_generation ▸ policy_hash ▸ window_count ▸ result
        ▸ reserved1 ▸ end)
      a e =
    ground (arith, e)

-- Bytes are decoded to an acknowledgement exactly if they are its encoding, its fields have their
-- widths and it passes the checks of the decoder.
decode_acknowledged_iff :
    (bytes : Reader) (v : PolicyAcknowledged)
    → AreBytes bytes
    → (decode_acknowledged bytes ≡ decoded v) ↔ (
        (bytes ≡ encode_acknowledged v)
        × AllFit acknowledged_fields (acknowledged_values v)
        × (check_acknowledged (acknowledged_values v) ≡ some v))
unfolding decode_acknowledged encode_acknowledged
decode_acknowledged_iff bytes v b =
    decode_fixed_iff acknowledged_fields acknowledged_values check_acknowledged acknowledged_taken
      bytes v b

bindings_taken :
    (vs : Values bindings_fields) (a : PolicyBindingsUpsert)
    → check_bindings vs ≡ some a
    → bindings_values a ≡ vs
unfolding check_bindings bindings_values
bindings_taken
      (move_modifiers ▸ resize_modifiers ▸ close_modifiers ▸ reserved1 ▸ move_button ▸ resize_button
        ▸ reserved2 ▸ close_keysym ▸ minimum_width ▸ minimum_height ▸ raise_on_focus
        ▸ consume_wm_bindings ▸ reserved3 ▸ reserved4 ▸ end)
      a e =
    ground (arith, e)

-- Bytes are decoded to the bindings exactly if they are its encoding, its fields have their widths
-- and it passes the checks of the decoder.
decode_bindings_iff :
    (bytes : Reader) (v : PolicyBindingsUpsert)
    → AreBytes bytes
    → (decode_bindings bytes ≡ decoded v) ↔ (
        (bytes ≡ encode_bindings v)
        × AllFit bindings_fields (bindings_values v)
        × (check_bindings (bindings_values v) ≡ some v))
unfolding decode_bindings encode_bindings
decode_bindings_iff bytes v b =
    decode_fixed_iff bindings_fields bindings_values check_bindings bindings_taken bytes v b
