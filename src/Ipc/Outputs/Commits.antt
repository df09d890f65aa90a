-- ===== src/Ipc/Outputs/Commits.antt =====
-- src/ipc/wire/output_contract.cpp: the output of a window, the query and the commit of a
-- configuration.
use glasswyrm.Prelude.{
  ℕ, List, [], ◌∷◌, Option, none, some, ◌or◌, if◌then◌else◌, ltb, ◌==◌, ◌!=◌, ◌-◌, ◌^◌, bit_and,
}
use glasswyrm.Ipc.Bytes.{Reader}
use glasswyrm.Ipc.Fields.{◌▸◌, Field, u16, u32, u64, Values, write_fields, Decoded, decode_fixed}

pub record PolicyWindowOutputHint : Type 0 where
  pub window_id : ℕ
  pub previous_output_id : ℕ
  pub preferred_output_id : ℕ
  pub flags : ℕ

abbrev pub output_hint_fields : List Field
output_hint_fields = u32 ∷ u32 ∷ u64 ∷ u64 ∷ []

unfoldable pub output_hint_values : PolicyWindowOutputHint → Values output_hint_fields
output_hint_values value =
    (value.window_id ▸ value.flags ▸ value.previous_output_id ▸ value.preferred_output_id ▸ tt)

unfoldable pub check_output_hint : Values output_hint_fields → Option PolicyWindowOutputHint
check_output_hint (window_id ▸ flags ▸ previous_output_id ▸ preferred_output_id ▸ end) =
    let value : PolicyWindowOutputHint = record {
      window_id = window_id;
      previous_output_id = previous_output_id;
      preferred_output_id = preferred_output_id;
      flags = flags;
    } in
    if window_id == 0 or flags != 0 then none else some value

unfoldable pub encode_output_hint : PolicyWindowOutputHint → List ℕ
encode_output_hint value = write_fields output_hint_fields (output_hint_values value) []

unfoldable pub decode_output_hint : Reader → Decoded PolicyWindowOutputHint
decode_output_hint bytes = decode_fixed output_hint_fields check_output_hint bytes

pub record OutputStateQuery : Type 0 where
  pub query_id : ℕ
  pub flags : ℕ

abbrev pub output_query_fields : List Field
output_query_fields = u64 ∷ u32 ∷ u32 ∷ []

unfoldable pub output_query_values : OutputStateQuery → Values output_query_fields
output_query_values value = (value.query_id ▸ value.flags ▸ 0 ▸ tt)

unfoldable pub check_output_query : Values output_query_fields → Option OutputStateQuery
check_output_query (query_id ▸ flags ▸ reserved1 ▸ end) =
    let value : OutputStateQuery = record { query_id = query_id; flags = flags } in
    if query_id == 0 or flags == 0 or bit_and flags (2 ^ 32 - 1 - 15) != 0 or reserved1 != 0
    then none
    else some value

unfoldable pub encode_output_query : OutputStateQuery → List ℕ
encode_output_query value = write_fields output_query_fields (output_query_values value) []

unfoldable pub decode_output_query : Reader → Decoded OutputStateQuery
decode_output_query bytes = decode_fixed output_query_fields check_output_query bytes

pub record OutputConfigurationCommit : Type 0 where
  pub configuration_id : ℕ
  pub base_generation : ℕ
  pub primary_output_id : ℕ
  pub flags : ℕ

abbrev pub configuration_commit_fields : List Field
configuration_commit_fields = u64 ∷ u64 ∷ u64 ∷ u32 ∷ u32 ∷ []

unfoldable pub configuration_commit_values :
    OutputConfigurationCommit → Values configuration_commit_fields
configuration_commit_values value =
    (value.configuration_id ▸ value.base_generation ▸ value.primary_output_id ▸ value.flags ▸ 0
      ▸ tt)

unfoldable pub check_configuration_commit :
    Values configuration_commit_fields → Option OutputConfigurationCommit
check_configuration_commit
      (configuration_id ▸ base_generation ▸ primary_output_id ▸ flags ▸ reserved1 ▸ end) =
    let value : OutputConfigurationCommit = record {
      configuration_id = configuration_id;
      base_generation = base_generation;
      primary_output_id = primary_output_id;
      flags = flags;
    } in
    if configuration_id == 0
      or base_generation == 0
      or primary_output_id == 0
      or flags != 0
      or reserved1 != 0
    then none
    else some value

unfoldable pub encode_configuration_commit : OutputConfigurationCommit → List ℕ
encode_configuration_commit value =
    write_fields configuration_commit_fields (configuration_commit_values value) []

unfoldable pub decode_configuration_commit : Reader → Decoded OutputConfigurationCommit
decode_configuration_commit bytes =
    decode_fixed configuration_commit_fields check_configuration_commit bytes

pub record OutputConfigurationAcknowledged : Type 0 where
  pub request_id : ℕ
  pub applied_generation : ℕ
  pub result : ℕ
  pub flags : ℕ
  pub primary_output_id : ℕ
  pub root_logical_width : ℕ
  pub root_logical_height : ℕ
  pub enabled_output_count : ℕ

abbrev pub configuration_acknowledged_fields : List Field
configuration_acknowledged_fields = u64 ∷ u64 ∷ u16 ∷ u16 ∷ u32 ∷ u64 ∷ u32 ∷ u32 ∷ u32 ∷ u32 ∷ []

unfoldable pub configuration_acknowledged_values :
    OutputConfigurationAcknowledged → Values configuration_acknowledged_fields
configuration_acknowledged_values value =
    (value.request_id ▸ value.applied_generation ▸ value.result ▸ 0 ▸ value.flags
      ▸ value.primary_output_id ▸ value.root_logical_width ▸ value.root_logical_height
      ▸ value.enabled_output_count ▸ 0 ▸ tt)

unfoldable pub check_configuration_acknowledged :
    Values configuration_acknowledged_fields → Option OutputConfigurationAcknowledged
check_configuration_acknowledged
      (request_id ▸ applied_generation ▸ result ▸ reserved1 ▸ flags ▸ primary_output_id
        ▸ root_logical_width ▸ root_logical_height ▸ enabled_output_count ▸ reserved2 ▸ end) =
    let value : OutputConfigurationAcknowledged = record {
      request_id = request_id;
      applied_generation = applied_generation;
      result = result;
      flags = flags;
      primary_output_id = primary_output_id;
      root_logical_width = root_logical_width;
      root_logical_height = root_logical_height;
      enabled_output_count = enabled_output_count;
    } in
    if request_id == 0
      or applied_generation == 0
      or ltb result 1
      or ltb 12 result
      or flags != 0
      or primary_output_id == 0
      or root_logical_width == 0
      or ltb 32767 root_logical_width
      or root_logical_height == 0
      or ltb 32767 root_logical_height
      or ltb enabled_output_count 1
      or ltb 8 enabled_output_count
      or reserved1 != 0
      or reserved2 != 0
    then none
    else some value

unfoldable pub encode_configuration_acknowledged : OutputConfigurationAcknowledged → List ℕ
encode_configuration_acknowledged value =
    write_fields configuration_acknowledged_fields (configuration_acknowledged_values value) []

unfoldable pub decode_configuration_acknowledged : Reader → Decoded OutputConfigurationAcknowledged
decode_configuration_acknowledged bytes =
    decode_fixed configuration_acknowledged_fields check_configuration_acknowledged bytes
