-- ===== src/Server/GrabState/Active.antt =====
-- The active grabs of src/glasswyrmd/grab_state.cpp: how they begin, change and end.
use glasswyrm.Prelude.{
  ℕ, Bool, true, false, Option, none, some, is_some, ◌&&◌, ◌||◌, not, if◌then◌else◌, ◌==◌, ◌!=◌,
  ◌-◌, ◌^◌, bit_and, bit_or,
}
use glasswyrm.Server.GrabState.State.{
  GrabMode, GrabStatus, PointerGrabOrigin, PointerGrabRequest, KeyboardGrabRequest, PointerGrab,
  KeyboardGrab, GrabState, pointer_grab_mask, automatic_grab_mask, timestamp_after, button_bit,
  mode_is_async, is_explicit,
}

-- The resolved time, which valid_time writes to its last argument.
abbrev pub resolved : ℕ → ℕ → ℕ
resolved request_time current_time = if request_time == 0 then current_time else request_time

unfoldable pub valid_time : ℕ → ℕ → ℕ → Bool
valid_time request_time current_time last_grab_time =
    let time = resolved request_time current_time in
    not (timestamp_after last_grab_time time) && not (timestamp_after time current_time)

-- Whether a mask has a bit that a pointer grab may not select.
abbrev pub foreign_bits : ℕ → Bool
foreign_bits event_mask = bit_and event_mask (2 ^ 32 - 1 - pointer_grab_mask) != 0

unfoldable pub validate_pointer_fields : ℕ → GrabMode → GrabMode → ℕ → ℕ → Bool → GrabStatus
validate_pointer_fields event_mask pointer_mode keyboard_mode confine_to cursor cursor_valid =
    if not (mode_is_async pointer_mode) || not (mode_is_async keyboard_mode)
    then GrabStatus.bad_implementation
    else (if foreign_bits event_mask
        then GrabStatus.invalid_event_mask
        else (if confine_to != 0
            then GrabStatus.unsupported_confine
            else (if cursor != 0 && not cursor_valid
                then GrabStatus.invalid_cursor
                else GrabStatus.success)))

abbrev pub is_success : GrabStatus → Bool
is_success GrabStatus.success = true
is_success _ = false

unfoldable pub grab_pointer : PointerGrabRequest → GrabState → GrabState × GrabStatus
grab_pointer request s =
    let fields =
      validate_pointer_fields request.event_mask request.pointer_mode request.keyboard_mode
        request.confine_to request.cursor request.cursor_valid in
    let activation_time = resolved request.request_time request.current_time in
    if not (is_success fields)
    then (s, fields)
    else (if not request.window_viewable
        then (s, GrabStatus.not_viewable)
        else (if not (valid_time request.request_time request.current_time s.last_pointer_grab_time)
            then (s, GrabStatus.invalid_time)
            else (if is_some s.pointer_grab then (s, GrabStatus.already_grabbed) else (
              record s {
                pointer_grab = some record {
                  origin = PointerGrabOrigin.explicit;
                  client = request.client;
                  window = request.window;
                  owner_events = request.owner_events;
                  event_mask = request.event_mask;
                  cursor = request.cursor;
                  cursor_image = request.cursor_image;
                  activation_time = activation_time;
                  held_buttons = 0;
                };
                last_pointer_grab_time = activation_time;
              },
              GrabStatus.success,
            ))))

abbrev pub held_by_pointer : ℕ → Option PointerGrab → Bool
held_by_pointer client none = false
held_by_pointer client (some grab) = grab.client == client

abbrev pub held_by_keyboard : ℕ → Option KeyboardGrab → Bool
held_by_keyboard client none = false
held_by_keyboard client (some grab) = grab.client == client

unfoldable pub ungrab_pointer : ℕ → ℕ → ℕ → GrabState → GrabState × Bool
ungrab_pointer client request_time current_time s =
    if not (held_by_pointer client s.pointer_grab)
      || not (valid_time request_time current_time s.last_pointer_grab_time)
    then (s, false)
    else (record s { pointer_grab = none }, true)

-- The part of change_active_pointer_grab after the test that there is a grab.
unfoldable pub change_grab :
    PointerGrab → ℕ → ℕ → ℕ → Bool → Option ℕ → ℕ → ℕ → GrabState → GrabState × GrabStatus
change_grab grab client event_mask cursor cursor_valid cursor_image request_time current_time s =
    if grab.client != client
    then (s, GrabStatus.not_owner)
    else (if foreign_bits event_mask
        then (s, GrabStatus.invalid_event_mask)
        else (if cursor != 0 && not cursor_valid
            then (s, GrabStatus.invalid_cursor)
            else (if not (valid_time request_time current_time s.last_pointer_grab_time)
                then (s, GrabStatus.invalid_time)
                else (
                  record s {
                    pointer_grab = some (record grab {
                      event_mask = event_mask;
                      cursor = cursor;
                      cursor_image = cursor_image;
                    });
                  },
                  GrabStatus.success,
                ))))

unfoldable pub change_active_pointer_grab :
    ℕ → ℕ → ℕ → Bool → Option ℕ → ℕ → ℕ → GrabState → GrabState × GrabStatus
change_active_pointer_grab client event_mask cursor cursor_valid cursor_image request_time
      current_time s =
    elim s.pointer_grab [
      | none ↦ (s, GrabStatus.not_found)
      | some grab ↦
          change_grab grab client event_mask cursor cursor_valid cursor_image request_time
            current_time s
    ]

unfoldable pub grab_keyboard : KeyboardGrabRequest → GrabState → GrabState × GrabStatus
grab_keyboard request s =
    let activation_time = resolved request.request_time request.current_time in
    if not (mode_is_async request.pointer_mode) || not (mode_is_async request.keyboard_mode)
    then (s, GrabStatus.bad_implementation)
    else (if not request.window_viewable
        then (s, GrabStatus.not_viewable)
        else (if not
              (valid_time request.request_time request.current_time s.last_keyboard_grab_time)
            then (s, GrabStatus.invalid_time)
            else (if is_some s.keyboard_grab then (s, GrabStatus.already_grabbed) else (
              record s {
                keyboard_grab = some record {
                  client = request.client;
                  window = request.window;
                  owner_events = request.owner_events;
                  activation_time = activation_time;
                };
                last_keyboard_grab_time = activation_time;
              },
              GrabStatus.success,
            ))))

unfoldable pub ungrab_keyboard : ℕ → ℕ → ℕ → GrabState → GrabState × Bool
ungrab_keyboard client request_time current_time s =
    if not (held_by_keyboard client s.keyboard_grab)
      || not (valid_time request_time current_time s.last_keyboard_grab_time)
    then (s, false)
    else (record s { keyboard_grab = none }, true)

unfoldable pub begin_automatic_button_grab : ℕ → ℕ → ℕ → ℕ → GrabState → GrabState × Bool
begin_automatic_button_grab client window button current_time s =
    if is_some s.pointer_grab || button_bit button == 0 then (s, false) else (
      record s {
        pointer_grab = some record {
          origin = PointerGrabOrigin.automatic_button;
          client = client;
          window = window;
          owner_events = true;
          event_mask = automatic_grab_mask;
          cursor = 0;
          cursor_image = none;
          activation_time = current_time;
          held_buttons = button_bit button;
        };
        last_pointer_grab_time = current_time;
      },
      true,
    )

unfoldable pub note_button_press : ℕ → GrabState → GrabState
note_button_press button s = elim s.pointer_grab [
  | none ↦ s
  | some grab ↦ if is_explicit grab.origin then s else record s {
    pointer_grab =
        some (record grab { held_buttons = bit_or grab.held_buttons (button_bit button) });
  }
]

-- The buttons that stay held when one is released.
abbrev pub held_without : ℕ → PointerGrab → ℕ
held_without button grab = bit_and grab.held_buttons (2 ^ 16 - 1 - button_bit button)

unfoldable pub note_button_release : ℕ → GrabState → GrabState × Bool
note_button_release button s = elim s.pointer_grab [
  | none ↦ (s, false)
  | some grab ↦
      if is_explicit grab.origin
      then (s, false)
      else (if held_without button grab != 0
          then (
            record s {
              pointer_grab = some (record grab { held_buttons = held_without button grab });
            },
            false,
          )
          else (record s { pointer_grab = none }, true))
]
