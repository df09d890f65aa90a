-- ===== src/Ipc/Session.antt =====
-- src/ipc/wire/session_contract.hpp and session_contract.cpp. An enum is its value.
pub mod RoundTrip
use glasswyrm.Prelude.{
  ℕ, List, [], ◌∷◌, Option, none, some, Bool, ◌&&◌, ◌||◌, if◌then◌else◌, ltb, ◌==◌, ◌!=◌,
}
use glasswyrm.Ipc.Bytes.{Reader}
use glasswyrm.Ipc.Fields.{◌▸◌, Field, u16, u32, u64, Values, write_fields, Decoded, decode_fixed}

pub record SessionStateChange : Type 0 where
  pub generation : ℕ
  pub state : ℕ
  pub flags : ℕ

pub record SessionStateAcknowledged : Type 0 where
  pub generation : ℕ
  pub state : ℕ
  pub result : ℕ
  pub flags : ℕ

-- The generation, the state, a reserved field or the result, and the flags.
abbrev pub session_fields : List Field
session_fields = u64 ∷ u16 ∷ u16 ∷ u32 ∷ []

unfoldable pub encode_change : SessionStateChange → List ℕ
encode_change value =
    write_fields session_fields (value.generation ▸ value.state ▸ 0 ▸ value.flags ▸ tt) []

unfoldable pub check_change : Values session_fields → Option SessionStateChange
check_change (generation ▸ state ▸ reserved ▸ flags ▸ end) =
    if generation == 0 || (ltb state 1 || (ltb 2 state || (flags != 0 || reserved != 0)))
    then none
    else some record { generation = generation; state = state; flags = flags }

unfoldable pub decode_change : Reader → Decoded SessionStateChange
decode_change bytes = decode_fixed session_fields check_change bytes

unfoldable pub encode_acknowledged : SessionStateAcknowledged → List ℕ
encode_acknowledged value =
    write_fields session_fields (value.generation ▸ value.state ▸ value.result ▸ value.flags ▸ tt)
      []

unfoldable pub check_acknowledged : Values session_fields → Option SessionStateAcknowledged
check_acknowledged (generation ▸ state ▸ result ▸ flags ▸ end) =
    if generation == 0
      || (ltb state 1 || (ltb 2 state || (ltb result 1 || (ltb 4 result || flags != 0))))
    then none
    else some record { generation = generation; state = state; result = result; flags = flags }

unfoldable pub decode_acknowledged : Reader → Decoded SessionStateAcknowledged
decode_acknowledged bytes = decode_fixed session_fields check_acknowledged bytes
