-- ===== src/Ipc/Policy/Examples.antt =====
-- src/ipc/wire/policy_contract.cpp: a window that is mapped and asks for decorations.
use glasswyrm.Prelude.{◌≡◌, ◌↔◌, true, false, arith}
use glasswyrm.Prelude.Int.{pos, negsuc}
use glasswyrm.Ipc.Bytes.Laws.{AreBytes}
use glasswyrm.Ipc.Fields.{decoded}
use glasswyrm.Ipc.Fields.Layout.{AllFit}
use glasswyrm.Ipc.Fields.Written.{write_fields-AreBytes}
use glasswyrm.Ipc.Policy.{
  PolicyWindowUpsert, window_fields, window_values, encode_window, decode_window,
}
use glasswyrm.Ipc.Policy.Validity.{IsWindow, decode_window_iff}

abbrev terminal : PolicyWindowUpsert
terminal = record {
  window_id = 2097153;
  parent_window_id = 256;
  transient_for = 0;
  workspace_id = 1;
  requested_x = negsuc 9;
  requested_y = pos 20;
  requested_width = 640;
  requested_height = 480;
  border_width = 0;
  window_type = 1;
  map_intent = 1;
  override_redirect = false;
  decoration_preference = 2;
  fullscreen_requested = false;
  maximized_requested = true;
  minimized_requested = false;
  attention_requested = false;
  creation_serial = 3;
  map_serial = 4;
  focus_serial = 0;
  flags = 5;
}

terminal-AllFit : AllFit window_fields (window_values terminal)
unfolding window_values
terminal-AllFit = ground arith

terminal-bytes : AreBytes (encode_window terminal)
unfolding encode_window
terminal-bytes = write_fields-AreBytes window_fields (window_values terminal) terminal-AllFit

decode_window_iff_example : (decode_window (encode_window terminal) ≡ decoded terminal) ↔ (
    (encode_window terminal ≡ encode_window terminal)
    × AllFit window_fields (window_values terminal)
    × IsWindow terminal)
decode_window_iff_example = decode_window_iff (encode_window terminal) terminal terminal-bytes
