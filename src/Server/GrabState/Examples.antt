-- ===== src/Server/GrabState/Examples.antt =====
-- src/glasswyrmd/grab_state.cpp: two clients with passive grabs of the same button on two windows.
use glasswyrm.Prelude.{ℕ, [], ◌∷◌, List, some, none, true, false, refl}
use glasswyrm.Server.GrabState.{
  GrabState, GrabMode, PointerGrab, PassiveButtonGrab, PassiveButtonGrabRequest,
  activate_passive_button,
}
use glasswyrm.Server.GrabState.Passive.{Exclusive}
use glasswyrm.Server.GrabState.Histories.{
  Call, apply, after, after-Exclusive, SameHolder, pointer_stays,
}
use glasswyrm.Server.GrabState.Best.{grab_of}

abbrev request : ℕ → ℕ → PassiveButtonGrabRequest
request client window = record {
  client = client;
  window = window;
  button = 1;
  modifiers = 8;
  owner_events = false;
  event_mask = 4;
  pointer_mode = GrabMode.asynchronous;
  keyboard_mode = GrabMode.asynchronous;
  confine_to = 0;
  cursor = 0;
  cursor_valid = true;
  cursor_image = none;
}

abbrev state : GrabState
state = record {
  pointer_grab = none;
  keyboard_grab = none;
  passive_buttons =
      record { request = request 3 20; serial = 1 }
      ∷ record { request = request 4 30; serial = 2 }
      ∷ [];
  last_pointer_grab_time = 0;
  last_keyboard_grab_time = 0;
  next_passive_serial = 3;
}

abbrev pressed : GrabState
pressed = (activate_passive_button 1 8 (30 ∷ 20 ∷ 10 ∷ []) 50 state).0

abbrev calls : List Call
calls = Call.grabs_button (request 4 20) ∷ Call.grabs_button (request 3 20) ∷ []

after-Exclusive_example : Exclusive (after calls).passive_buttons
after-Exclusive_example = after-Exclusive calls

abbrev held : PointerGrab
held =
    grab_of 1 50
      record { passive = record { request = request 4 30; serial = 2 }; depth = 0; specificity = 2 }

pointer_stays_example :
    SameHolder held (apply (Call.cleans_client 3) (record state { pointer_grab = some held }))
pointer_stays_example =
    pointer_stays (Call.cleans_client 3) (record state { pointer_grab = some held }) held refl refl
