-- ===== src/Server/GrabState.antt =====
-- src/glasswyrmd/grab_state.hpp and grab_state.cpp. Times are uint32_t that wrap around; a cursor image
-- is known by its address only. The types stand in `State`, the operations on active grabs in `Active`
-- and those on passive grabs in `Buttons`; here are routing, allow_events and the cleanups.
mod State
mod Active
mod Buttons
pub mod Best
pub mod Passive
pub mod Histories
pub mod Release
pub mod Examples
unfoldable pub use State.*
unfoldable pub use Active.*
unfoldable pub use Buttons.*
use glasswyrm.Prelude.{
  ℕ, suc, Bool, true, false, List, [], ◌∷◌, ◌++◌, Option, none, some, is_some, ◌&&◌, ◌||◌, not,
  if◌then◌else◌, ltb, leb, ◌==◌, ◌!=◌, ◌+◌, ◌-◌, ◌^◌, ◌%◌, length, keep_if, bit_and, bit_or,
}

abbrev natural_route : GrabRouteInput → GrabRouteDecision
natural_route input = record {
  kind = GrabRouteKind.natural;
  client = input.natural_client;
  window = input.natural_window;
  crossing_target = input.real_pointer_target;
}

-- Whether the owner of a grab gets the event as if there was no grab.
abbrev pub to_owner : Bool → ℕ → ℕ → Bool
to_owner owner_events owner natural_client =
    owner_events && (natural_client == owner && natural_client != 0)

unfoldable pub route_pointer : GrabRouteInput → GrabState → GrabRouteDecision
route_pointer input s = elim s.pointer_grab [
  | none ↦ natural_route input
  | some grab ↦
      if to_owner grab.owner_events grab.client input.natural_client
      then natural_route input
      else (if bit_and grab.event_mask input.event_mask != 0
          then record {
            kind = GrabRouteKind.grab_window;
            client = grab.client;
            window = grab.window;
            crossing_target = input.real_pointer_target;
          }
          else record {
            kind = GrabRouteKind.suppressed;
            client = 0;
            window = 0;
            crossing_target = input.real_pointer_target;
          })
]

unfoldable pub route_keyboard : GrabRouteInput → GrabState → GrabRouteDecision
route_keyboard input s = elim s.keyboard_grab [
  | none ↦ natural_route input
  | some grab ↦
      if to_owner grab.owner_events grab.client input.natural_client
      then natural_route input
      else record {
        kind = GrabRouteKind.grab_window;
        client = grab.client;
        window = grab.window;
        crossing_target = input.real_pointer_target;
      }
]

-- The time that allow_events compares with, for the three modes that it knows.
abbrev last_time_for : AllowEventsMode → GrabState → Option ℕ
last_time_for AllowEventsMode.async_pointer s = some s.last_pointer_grab_time
last_time_for AllowEventsMode.async_keyboard s = some s.last_keyboard_grab_time
last_time_for AllowEventsMode.async_both s = some (
    if timestamp_after s.last_keyboard_grab_time s.last_pointer_grab_time
    then s.last_keyboard_grab_time
    else s.last_pointer_grab_time)
last_time_for _ s = none

unfoldable pub allow_events : AllowEventsMode → ℕ → ℕ → GrabState → GrabStatus
allow_events mode request_time current_time s = elim (last_time_for mode s) [
  | none ↦ GrabStatus.bad_implementation
  | some last_time ↦
      if valid_time request_time current_time last_time
      then GrabStatus.success
      else GrabStatus.invalid_time
]

unfoldable pub release_active : GrabState → GrabState × GrabCleanupResult
release_active s = (
  record s { pointer_grab = none; keyboard_grab = none },
  record {
    pointer_released = is_some s.pointer_grab;
    keyboard_released = is_some s.keyboard_grab;
    passive_buttons_removed = 0;
  },
)

-- The two cleanups, by what a grab or a request is tested for.
unfoldable pub cleanup :
    Bool → Bool → (PassiveButtonGrabRequest → Bool) → GrabState → GrabState × GrabCleanupResult
cleanup pointer keyboard owned s =
    let passive_buttons = keep_if (λ passive. not (owned passive.request)) s.passive_buttons in
    (
      record s {
        pointer_grab = if pointer then none else s.pointer_grab;
        keyboard_grab = if keyboard then none else s.keyboard_grab;
        passive_buttons = passive_buttons;
      },
      record {
        pointer_released = pointer;
        keyboard_released = keyboard;
        passive_buttons_removed = length s.passive_buttons - length passive_buttons;
      },
    )

unfoldable pub cleanup_client : ℕ → GrabState → GrabState × GrabCleanupResult
cleanup_client client s =
    cleanup (held_by_pointer client s.pointer_grab) (held_by_keyboard client s.keyboard_grab)
      (λ request. request.client == client) s

abbrev pub pointer_on_window : ℕ → Option PointerGrab → Bool
pointer_on_window window none = false
pointer_on_window window (some grab) = grab.window == window

abbrev pub keyboard_on_window : ℕ → Option KeyboardGrab → Bool
keyboard_on_window window none = false
keyboard_on_window window (some grab) = grab.window == window

unfoldable pub cleanup_window : ℕ → GrabState → GrabState × GrabCleanupResult
cleanup_window window s =
    cleanup (pointer_on_window window s.pointer_grab) (keyboard_on_window window s.keyboard_grab)
      (λ request. request.window == window) s

unfoldable pub suspend : GrabState → GrabState × GrabCleanupResult
suspend s = release_active s
