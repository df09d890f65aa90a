-- ===== src/Server/GrabState/Histories.antt =====
-- What holds after any calls of the grab state, and who keeps the pointer.
use glasswyrm.Prelude.{
  ℕ, Bool, true, false, List, [], ◌∷◌, Option, none, some, ◌≡◌, arith, refl, Bool-cases,
  Option-cases, inl, inr, ◌&&◌, ◌||◌, not, ◌==◌, bit_and, bit_or, ◌!=◌,
}
use glasswyrm.Server.GrabState.{
  GrabState, PointerGrab, PointerGrabRequest, KeyboardGrabRequest, PassiveButtonGrabRequest,
  grab_pointer, ungrab_pointer, change_active_pointer_grab, change_grab, grab_keyboard,
  ungrab_keyboard, begin_automatic_button_grab, note_button_press, note_button_release, grab_button,
  add_passive, activate_passive_button, take_best, best_of, cleanup, cleanup_client, cleanup_window,
  suspend, release_active, is_explicit, foreign_bits, valid_time, button_bit, replace_passive,
  held_without, core_modifier_mask,
}
use glasswyrm.Server.GrabState.Passive.{
  NoConflict, Exclusive, NoConflict-Exclusive, add_passive-NoConflict, keep_if-NoConflict,
}

pub data Call : Type 0 where
  grabs_pointer : PointerGrabRequest → Call
  ungrabs_pointer : ℕ → ℕ → ℕ → Call
  changes_grab : ℕ → ℕ → ℕ → Bool → Option ℕ → ℕ → ℕ → Call
  grabs_keyboard : KeyboardGrabRequest → Call
  ungrabs_keyboard : ℕ → ℕ → ℕ → Call
  begins_automatic : ℕ → ℕ → ℕ → ℕ → Call
  presses releases : ℕ → Call
  grabs_button : PassiveButtonGrabRequest → Call
  activates : ℕ → ℕ → List ℕ → ℕ → Call
  cleans_client cleans_window : ℕ → Call
  suspends : Call

unfoldable pub apply : Call → GrabState → GrabState
apply (grabs_pointer r) s = (grab_pointer r s).0
apply (ungrabs_pointer c r t) s = (ungrab_pointer c r t s).0
apply (changes_grab c m k v i r t) s = (change_active_pointer_grab c m k v i r t s).0
apply (grabs_keyboard r) s = (grab_keyboard r s).0
apply (ungrabs_keyboard c r t) s = (ungrab_keyboard c r t s).0
apply (begins_automatic c w b t) s = (begin_automatic_button_grab c w b t s).0
apply (presses b) s = note_button_press b s
apply (releases b) s = (note_button_release b s).0
apply (grabs_button r) s = (grab_button r s).0
apply (activates b m a t) s = (activate_passive_button b m a t s).0
apply (cleans_client c) s = (cleanup_client c s).0
apply (cleans_window w) s = (cleanup_window w s).0
apply suspends s = (suspend s).0

abbrev pub initial : GrabState
initial = record {
  pointer_grab = none;
  keyboard_grab = none;
  passive_buttons = [];
  last_pointer_grab_time = 0;
  last_keyboard_grab_time = 0;
  next_passive_serial = 1;
}

-- The state after some calls, the first of the list being the last call.
unfoldable pub after : List Call → GrabState
after [] = initial
after (call ∷ calls) = apply call (after calls)

step-NoConflict :
    (call : Call) (s : GrabState)
    → NoConflict s.passive_buttons
    → NoConflict (apply call s).passive_buttons
unfolding apply grab_pointer ungrab_pointer change_active_pointer_grab change_grab grab_keyboard
    ungrab_keyboard begin_automatic_button_grab note_button_press note_button_release grab_button
    activate_passive_button take_best cleanup_client cleanup_window cleanup suspend release_active
step-NoConflict (grabs_pointer r) s h = ground (arith, h)
step-NoConflict (ungrabs_pointer c r t) s h = ground (arith, h)
step-NoConflict (changes_grab c m k v i r t) s h = elim (Option-cases s.pointer_grab) [
  | inl e ↦ ground (arith, h, e)
  | inr (g, e) ↦ ground (arith, h, e)
]
step-NoConflict (grabs_keyboard r) s h = ground (arith, h)
step-NoConflict (ungrabs_keyboard c r t) s h = ground (arith, h)
step-NoConflict (begins_automatic c w b t) s h = ground (arith, h)
step-NoConflict (presses b) s h = elim (Option-cases s.pointer_grab) [
  | inl e ↦ ground (arith, h, e)
  | inr (g, e) ↦ ground (arith, h, e)
]
step-NoConflict (releases b) s h = elim (Option-cases s.pointer_grab) [
  | inl e ↦ ground (arith, h, e)
  | inr (g, e) ↦ ground (arith, h, e)
]
step-NoConflict (grabs_button r) s h = ground (arith, h, add_passive-NoConflict r s h)
step-NoConflict (activates b m a t) s h =
    elim (Option-cases (best_of b (bit_and m core_modifier_mask) a s.passive_buttons none)) [
      | inl e ↦ ground (arith, h, e)
      | inr (g, e) ↦ ground (arith, h, e)
    ]
step-NoConflict (cleans_client c) s h =
    keep_if-NoConflict (λ p. not (p.request.client == c)) s.passive_buttons h
step-NoConflict (cleans_window w) s h =
    keep_if-NoConflict (λ p. not (p.request.window == w)) s.passive_buttons h
step-NoConflict suspends s h = h

after-NoConflict : (calls : List Call) → NoConflict (after calls).passive_buttons
unfolding after
after-NoConflict [] = tt
after-NoConflict (call ∷ calls) = step-NoConflict call (after calls) (after-NoConflict calls)

-- After any calls, two passive button grabs of different clients are on different windows, or are
-- each for one button and not for the same, or each for one set of modifiers and not for the same.
pub after-Exclusive : (calls : List Call) → Exclusive (after calls).passive_buttons
after-Exclusive calls = NoConflict-Exclusive (after calls).passive_buttons (after-NoConflict calls)

-- The calls that may end a pointer grab: an ungrab of its own client, the release of the last button
-- that it holds, the cleanup of its client or its window, and a suspension.
abbrev pub may_end : Call → PointerGrab → Bool
may_end (ungrabs_pointer c r t) g = g.client == c
may_end (releases b) g = not (is_explicit g.origin) && held_without b g == 0
may_end (cleans_client c) g = g.client == c
may_end (cleans_window w) g = g.window == w
may_end suspends g = true
may_end (grabs_pointer r) g = false
may_end (changes_grab c m k v i r t) g = false
may_end (grabs_keyboard r) g = false
may_end (ungrabs_keyboard c r t) g = false
may_end (begins_automatic c w b t) g = false
may_end (presses b) g = false
may_end (grabs_button r) g = false
may_end (activates b m a t) g = false

abbrev pub SameHolder : PointerGrab → GrabState → Type 0
SameHolder g s =
    (g' : PointerGrab) × (s.pointer_grab ≡ some g')
    × (g'.client ≡ g.client)
    × (g'.window ≡ g.window)
    × (g'.origin ≡ g.origin)
    × (g'.owner_events ≡ g.owner_events)
    × (g'.activation_time ≡ g.activation_time)

pointer-add_passive :
    (r : PassiveButtonGrabRequest) (s : GrabState)
    → (add_passive r s).0.pointer_grab ≡ s.pointer_grab
unfolding add_passive
pointer-add_passive r s = elim (Option-cases (replace_passive r s.passive_buttons)) [
  | inl k ↦ rw (k, add_passive) refl
  | inr (x, k) ↦ rw (k, add_passive) refl
]

-- While a client has the pointer, no call gives it to another: unless the call is one of those that
-- may end the grab, the pointer grab stays with its client, window, origin and time of activation.
pub pointer_stays :
    (call : Call) (s : GrabState) (g : PointerGrab)
    → s.pointer_grab ≡ some g
    → may_end call g ≡ false
    → SameHolder g (apply call s)
unfolding apply grab_pointer ungrab_pointer change_active_pointer_grab change_grab grab_keyboard
    ungrab_keyboard begin_automatic_button_grab note_button_press note_button_release grab_button
    activate_passive_button cleanup_client cleanup_window cleanup
pointer_stays (grabs_pointer r) s g e f = (g, ground (arith, e), refl, refl, refl, refl, refl)
pointer_stays (ungrabs_pointer c r t) s g e f =
    (g, ground (arith, e, f), refl, refl, refl, refl, refl)
pointer_stays (changes_grab c m k v i r t) s g e f =
    elim (Bool-cases (
      g.client != c
      || (foreign_bits m
          || ((k != 0 && not v) || not (valid_time r t s.last_pointer_grab_time))))) [
            | inl b ↦ (g, ground (arith, e, b), refl, refl, refl, refl, refl)
            | inr b ↦ (
              record g { event_mask = m; cursor = k; cursor_image = i },
              ground (arith, e, b),
              refl,
              refl,
              refl,
              refl,
              refl,
            )
          ]
pointer_stays (grabs_keyboard r) s g e f = (g, ground (arith, e), refl, refl, refl, refl, refl)
pointer_stays (ungrabs_keyboard c r t) s g e f =
    (g, ground (arith, e), refl, refl, refl, refl, refl)
pointer_stays (begins_automatic c w b t) s g e f =
    (g, ground (arith, e), refl, refl, refl, refl, refl)
pointer_stays (presses b) s g e f = elim (Bool-cases (is_explicit g.origin)) [
  | inl x ↦ (g, ground (arith, e, x), refl, refl, refl, refl, refl)
  | inr x ↦ (
    record g { held_buttons = bit_or g.held_buttons (button_bit b) },
    ground (arith, e, x),
    refl,
    refl,
    refl,
    refl,
    refl,
  )
]
pointer_stays (releases b) s g e f = elim (Bool-cases (is_explicit g.origin)) [
  | inl x ↦ (g, ground (arith, e, x), refl, refl, refl, refl, refl)
  | inr x ↦ (
    record g { held_buttons = held_without b g },
    ground (arith, e, f, x),
    refl,
    refl,
    refl,
    refl,
    refl,
  )
]
pointer_stays (grabs_button r) s g e f =
    (g, ground (arith, e, pointer-add_passive r s), refl, refl, refl, refl, refl)
pointer_stays (activates b m a t) s g e f = (g, ground (arith, e), refl, refl, refl, refl, refl)
pointer_stays (cleans_client c) s g e f = (g, ground (arith, e, f), refl, refl, refl, refl, refl)
pointer_stays (cleans_window w) s g e f = (g, ground (arith, e, f), refl, refl, refl, refl, refl)
pointer_stays suspends s g e f = absurd (ground (arith, f))
