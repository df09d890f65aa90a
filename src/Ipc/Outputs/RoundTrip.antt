-- ===== src/Ipc/Outputs/RoundTrip.antt =====
-- Each of these payloads is decoded exactly from its encoding.
use glasswyrm.Prelude.{◌≡◌, ◌↔◌, arith, some}
use glasswyrm.Ipc.Bytes.{Reader}
use glasswyrm.Ipc.Bytes.Laws.{AreBytes}
use glasswyrm.Ipc.Fields.{◌▸◌, Values, decoded}
use glasswyrm.Ipc.Fields.Laws.{decode_fixed_iff}
use glasswyrm.Ipc.Fields.Layout.{AllFit}
use glasswyrm.Ipc.Outputs.{
  OutputModeUpsert, output_mode_fields, output_mode_values, check_output_mode, encode_output_mode,
  decode_output_mode, PolicyOutputUpsert, policy_output_fields, policy_output_values,
  check_policy_output, encode_policy_output, decode_policy_output, PolicyWindowOutputHint,
  output_hint_fields, output_hint_values, check_output_hint, encode_output_hint, decode_output_hint,
  OutputStateQuery, output_query_fields, output_query_values, check_output_query,
  encode_output_query, decode_output_query, OutputConfigurationCommit, configuration_commit_fields,
  configuration_commit_values, check_configuration_commit, encode_configuration_commit,
  decode_configuration_commit, OutputConfigurationAcknowledged, configuration_acknowledged_fields,
  configuration_acknowledged_values, check_configuration_acknowledged,
  encode_configuration_acknowledged, decode_configuration_acknowledged,
}

output_mode_taken :
    (vs : Values output_mode_fields) (a : OutputModeUpsert)
    → check_output_mode vs ≡ some a
    → output_mode_values a ≡ vs
unfolding check_output_mode output_mode_values
output_mode_taken
      (output_id ▸ mode_id ▸ physical_width ▸ physical_height ▸ refresh_millihertz ▸ preferred
        ▸ current ▸ reserved1 ▸ flags ▸ reserved2 ▸ end)
      a e =
    ground (arith, e)

-- Bytes are decoded to a mode of an output exactly if they are its encoding, its fields have their
-- widths and it passes the checks of the decoder.
decode_output_mode_iff :
    (bytes : Reader) (v : OutputModeUpsert)
    → AreBytes bytes
    → (decode_output_mode bytes ≡ decoded v) ↔ (
        (bytes ≡ encode_output_mode v)
        × AllFit output_mode_fields (output_mode_values v)
        × (check_output_mode (output_mode_values v) ≡ some v))
unfolding decode_output_mode encode_output_mode
decode_output_mode_iff bytes v b =
    decode_fixed_iff output_mode_fields output_mode_values check_output_mode output_mode_taken bytes
      v b

policy_output_taken :
    (vs : Values policy_output_fields) (a : PolicyOutputUpsert)
    → check_policy_output vs ≡ some a
    → policy_output_values a ≡ vs
unfolding check_policy_output policy_output_values
policy_output_taken
      (output_id ▸ logical_x ▸ logical_y ▸ logical_width ▸ logical_height ▸ work_x ▸ work_y
        ▸ work_width ▸ work_height ▸ scale_numerator ▸ scale_denominator ▸ transform ▸ enabled
        ▸ primary ▸ flags ▸ end)
      a e =
    ground (arith, e)

-- Bytes are decoded to an output of the policy exactly if they are its encoding, its fields have
-- their widths and it passes the checks of the decoder.
decode_policy_output_iff :
    (bytes : Reader) (v : PolicyOutputUpsert)
    → AreBytes bytes
    → (decode_policy_output bytes ≡ decoded v) ↔ (
        (bytes ≡ encode_policy_output v)
        × AllFit policy_output_fields (policy_output_values v)
        × (check_policy_output (policy_output_values v) ≡ some v))
unfolding decode_policy_output encode_policy_output
decode_policy_output_iff bytes v b =
    decode_fixed_iff policy_output_fields policy_output_values check_policy_output
      policy_output_taken bytes v b

output_hint_taken :
    (vs : Values output_hint_fields) (a : PolicyWindowOutputHint)
    → check_output_hint vs ≡ some a
    → output_hint_values a ≡ vs
unfolding check_output_hint output_hint_values
output_hint_taken (window_id ▸ flags ▸ previous_output_id ▸ preferred_output_id ▸ end) a e =
    ground (arith, e)

-- Bytes are decoded to a hint exactly if they are its encoding, its fields have their widths and it
-- passes the checks of the decoder.
decode_output_hint_iff :
    (bytes : Reader) (v : PolicyWindowOutputHint)
    → AreBytes bytes
    → (decode_output_hint bytes ≡ decoded v) ↔ (
        (bytes ≡ encode_output_hint v)
        × AllFit output_hint_fields (output_hint_values v)
        × (check_output_hint (output_hint_values v) ≡ some v))
unfolding decode_output_hint encode_output_hint
decode_output_hint_iff bytes v b =
    decode_fixed_iff output_hint_fields output_hint_values check_output_hint output_hint_taken bytes
      v b

output_query_taken :
    (vs : Values output_query_fields) (a : OutputStateQuery)
    → check_output_query vs ≡ some a
    → output_query_values a ≡ vs
unfolding check_output_query output_query_values
output_query_taken (query_id ▸ flags ▸ reserved1 ▸ end) a e = ground (arith, e)

-- Bytes are decoded to a query exactly if they are its encoding, its fields have their widths and it
-- passes the checks of the decoder.
decode_output_query_iff :
    (bytes : Reader) (v : OutputStateQuery)
    → AreBytes bytes
    → (decode_output_query bytes ≡ decoded v) ↔ (
        (bytes ≡ encode_output_query v)
        × AllFit output_query_fields (output_query_values v)
        × (check_output_query (output_query_values v) ≡ some v))
unfolding decode_output_query encode_output_query
decode_output_query_iff bytes v b =
    decode_fixed_iff output_query_fields output_query_values check_output_query output_query_taken
      bytes v b

configuration_commit_taken :
    (vs : Values configuration_commit_fields) (a : OutputConfigurationCommit)
    → check_configuration_commit vs ≡ some a
    → configuration_commit_values a ≡ vs
unfolding check_configuration_commit configuration_commit_values
configuration_commit_taken
      (configuration_id ▸ base_generation ▸ primary_output_id ▸ flags ▸ reserved1 ▸ end) a e =
    ground (arith, e)

-- Bytes are decoded to a commit of a configuration exactly if they are its encoding, its fields have
-- their widths and it passes the checks of the decoder.
decode_configuration_commit_iff :
    (bytes : Reader) (v : OutputConfigurationCommit)
    → AreBytes bytes
    → (decode_configuration_commit bytes ≡ decoded v) ↔ (
        (bytes ≡ encode_configuration_commit v)
        × AllFit configuration_commit_fields (configuration_commit_values v)
        × (check_configuration_commit (configuration_commit_values v) ≡ some v))
unfolding decode_configuration_commit encode_configuration_commit
decode_configuration_commit_iff bytes v b =
    decode_fixed_iff configuration_commit_fields configuration_commit_values
      check_configuration_commit configuration_commit_taken bytes v b

configuration_acknowledged_taken :
    (vs : Values configuration_acknowledged_fields) (a : OutputConfigurationAcknowledged)
    → check_configuration_acknowledged vs ≡ some a
    → configuration_acknowledged_values a ≡ vs
unfolding check_configuration_acknowledged configuration_acknowledged_values
configuration_acknowledged_taken
      (request_id ▸ applied_generation ▸ result ▸ reserved1 ▸ flags ▸ primary_output_id
        ▸ root_logical_width ▸ root_logical_height ▸ enabled_output_count ▸ reserved2 ▸ end)
      a e =
    ground (arith, e)

-- Bytes are decoded to an acknowledgement of a configuration exactly if they are its encoding, its
-- fields have their widths and it passes the checks of the decoder.
decode_configuration_acknowledged_iff :
    (bytes : Reader) (v : OutputConfigurationAcknowledged)
    → AreBytes bytes
    → (decode_configuration_acknowledged bytes ≡ decoded v) ↔ (
        (bytes ≡ encode_configuration_acknowledged v)
        × AllFit configuration_acknowledged_fields (configuration_acknowledged_values v)
        × (check_configuration_acknowledged (configuration_acknowledged_values v) ≡ some v))
unfolding decode_configuration_acknowledged encode_configuration_acknowledged
decode_configuration_acknowledged_iff bytes v b =
    decode_fixed_iff configuration_acknowledged_fields configuration_acknowledged_values
      check_configuration_acknowledged configuration_acknowledged_taken bytes v b
