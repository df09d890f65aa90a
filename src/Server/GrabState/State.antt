-- ===== src/Server/GrabState/State.antt =====
-- The types of src/glasswyrmd/grab_state.hpp, and the tests at the top of grab_state.cpp.
use glasswyrm.Prelude.{
  ℕ, Bool, true, false, List, Option, ◌&&◌, ◌||◌, if◌then◌else◌, ltb, leb, ◌==◌, ◌+◌, ◌-◌, ◌^◌, ◌%◌,
  bit_and,
}

-- kAnyModifier and kAnyButton.
abbrev pub any_modifier : ℕ
any_modifier = 32768

abbrev pub any_button : ℕ
any_button = 0

pub data GrabMode : Type 0 where
  synchronous asynchronous : GrabMode

pub data GrabStatus : Type 0 where
  success already_grabbed invalid_time not_viewable invalid_mode invalid_event_mask : GrabStatus
  unsupported_confine invalid_cursor invalid_button invalid_modifiers bad_access : GrabStatus
  not_found not_owner bad_implementation : GrabStatus

pub data PointerGrabOrigin : Type 0 where
  explicit automatic_button passive_button : PointerGrabOrigin

pub record PointerGrabRequest : Type 0 where
  pub client : ℕ
  pub window : ℕ
  pub owner_events : Bool
  pub event_mask : ℕ
  pub pointer_mode : GrabMode
  pub keyboard_mode : GrabMode
  pub confine_to : ℕ
  pub cursor : ℕ
  pub cursor_valid : Bool
  pub cursor_image : Option ℕ
  pub request_time : ℕ
  pub current_time : ℕ
  pub window_viewable : Bool

pub record KeyboardGrabRequest : Type 0 where
  pub client : ℕ
  pub window : ℕ
  pub owner_events : Bool
  pub pointer_mode : GrabMode
  pub keyboard_mode : GrabMode
  pub request_time : ℕ
  pub current_time : ℕ
  pub window_viewable : Bool

pub record PassiveButtonGrabRequest : Type 0 where
  pub client : ℕ
  pub window : ℕ
  pub button : ℕ
  pub modifiers : ℕ
  pub owner_events : Bool
  pub event_mask : ℕ
  pub pointer_mode : GrabMode
  pub keyboard_mode : GrabMode
  pub confine_to : ℕ
  pub cursor : ℕ
  pub cursor_valid : Bool
  pub cursor_image : Option ℕ

pub record PointerGrab : Type 0 where
  pub origin : PointerGrabOrigin
  pub client : ℕ
  pub window : ℕ
  pub owner_events : Bool
  pub event_mask : ℕ
  pub cursor : ℕ
  pub cursor_image : Option ℕ
  pub activation_time : ℕ
  pub held_buttons : ℕ

pub record KeyboardGrab : Type 0 where
  pub client : ℕ
  pub window : ℕ
  pub owner_events : Bool
  pub activation_time : ℕ

pub data GrabRouteKind : Type 0 where
  natural grab_window suppressed : GrabRouteKind

pub record GrabRouteInput : Type 0 where
  pub natural_client : ℕ
  pub natural_window : ℕ
  pub event_mask : ℕ
  pub real_pointer_target : ℕ

pub record GrabRouteDecision : Type 0 where
  pub kind : GrabRouteKind
  pub client : ℕ
  pub window : ℕ
  pub crossing_target : ℕ

pub data AllowEventsMode : Type 0 where
  async_pointer sync_pointer replay_pointer async_keyboard : AllowEventsMode
  sync_keyboard replay_keyboard async_both sync_both : AllowEventsMode

pub record GrabCleanupResult : Type 0 where
  pub pointer_released : Bool
  pub keyboard_released : Bool
  pub passive_buttons_removed : ℕ

pub record PassiveButtonGrab : Type 0 where
  pub request : PassiveButtonGrabRequest
  pub serial : ℕ

pub record GrabState : Type 0 where
  pub pointer_grab : Option PointerGrab
  pub keyboard_grab : Option KeyboardGrab
  pub passive_buttons : List PassiveButtonGrab
  pub last_pointer_grab_time : ℕ
  pub last_keyboard_grab_time : ℕ
  pub next_passive_serial : ℕ

-- The bits 2 to 13, and the bits 3, 6 and 8 to 13.
abbrev pub pointer_grab_mask : ℕ
pointer_grab_mask = 16380

abbrev pub automatic_grab_mask : ℕ
automatic_grab_mask = 16200

abbrev pub core_modifier_mask : ℕ
core_modifier_mask = 255

-- The difference of two uint32_t is positive as an int32_t.
unfoldable pub timestamp_after : ℕ → ℕ → Bool
timestamp_after left right =
    let difference = (left + 2 ^ 32 - right) % 2 ^ 32 in ltb 0 difference && ltb difference (2 ^ 31)

unfoldable pub valid_button : ℕ → Bool
valid_button button = button == any_button || (leb 1 button && leb button 9)

unfoldable pub valid_modifiers : ℕ → Bool
valid_modifiers modifiers =
    modifiers == any_modifier || bit_and modifiers (2 ^ 16 - 1 - core_modifier_mask) == 0

unfoldable pub button_bit : ℕ → ℕ
button_bit button = if ltb button 1 || ltb 9 button then 0 else 2 ^ (button - 1)

abbrev pub mode_is_async : GrabMode → Bool
mode_is_async synchronous = false
mode_is_async asynchronous = true

abbrev pub is_explicit : PointerGrabOrigin → Bool
is_explicit explicit = true
is_explicit automatic_button = false
is_explicit passive_button = false
