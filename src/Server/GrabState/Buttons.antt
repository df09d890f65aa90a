-- ===== src/Server/GrabState/Buttons.antt =====
-- The passive grabs of src/glasswyrmd/grab_state.cpp: how they are placed and activated.
use glasswyrm.Prelude.{
  ℕ, suc, Bool, true, false, List, [], ◌∷◌, ◌++◌, Option, none, some, is_some, ◌&&◌, ◌||◌, not,
  if◌then◌else◌, ltb, ◌==◌, ◌!=◌, ◌+◌, ◌^◌, ◌%◌, bit_and,
}
use glasswyrm.Server.GrabState.State.{
  GrabStatus, PointerGrabOrigin, PassiveButtonGrabRequest, PassiveButtonGrab, GrabState,
  any_modifier, any_button, core_modifier_mask, valid_button, valid_modifiers, button_bit,
}
use glasswyrm.Server.GrabState.Active.{validate_pointer_fields, is_success}

unfoldable pub passive_overlaps : PassiveButtonGrabRequest → PassiveButtonGrabRequest → Bool
passive_overlaps left right =
    let buttons =
      left.button == any_button || (right.button == any_button || left.button == right.button) in
    let modifiers =
      left.modifiers == any_modifier
      || (right.modifiers == any_modifier || left.modifiers == right.modifiers) in
    left.window == right.window && (buttons && modifiers)

abbrev pub skip :
    PassiveButtonGrab
    → Option (GrabStatus × List PassiveButtonGrab)
    → Option (GrabStatus × List PassiveButtonGrab)
skip passive none = none
skip passive (some (status, passives)) = some (status, passive ∷ passives)

-- The loop of grab_button: what it returns and the passive grabs then, or nothing if it comes to its
-- end.
unfoldable pub replace_passive :
    PassiveButtonGrabRequest → List PassiveButtonGrab → Option (GrabStatus × List PassiveButtonGrab)
replace_passive request [] = none
replace_passive request (passive ∷ passives) =
    let rest = skip passive (replace_passive request passives) in
    if not (passive_overlaps passive.request request)
    then rest
    else (if passive.request.client != request.client
        then some (GrabStatus.bad_access, passive ∷ passives)
        else (if passive.request.button == request.button
              && passive.request.modifiers == request.modifiers
            then some (GrabStatus.success, record passive { request = request } ∷ passives)
            else rest))

unfoldable pub add_passive : PassiveButtonGrabRequest → GrabState → GrabState × GrabStatus
add_passive request s = elim (replace_passive request s.passive_buttons) [
  | some returned ↦ (record s { passive_buttons = returned.1 }, returned.0)
  | none ↦ (
    record s {
      passive_buttons =
          s.passive_buttons ++ (record { request = request; serial = s.next_passive_serial } ∷ []);
      next_passive_serial = (s.next_passive_serial + 1) % 2 ^ 64;
    },
    GrabStatus.success,
  )
]

unfoldable pub grab_button : PassiveButtonGrabRequest → GrabState → GrabState × GrabStatus
grab_button request s =
    let fields =
      validate_pointer_fields request.event_mask request.pointer_mode request.keyboard_mode
        request.confine_to request.cursor request.cursor_valid in
    if not (valid_button request.button)
    then (s, GrabStatus.invalid_button)
    else (if not (valid_modifiers request.modifiers)
        then (s, GrabStatus.invalid_modifiers)
        else (if not (is_success fields) then (s, fields) else add_passive request s))

-- The place of a window in the ancestry of the pointer, from the pointer's own window on.
unfoldable pub depth_of : ℕ → List ℕ → Option ℕ
depth_of window [] = none
depth_of window (w ∷ ws) =
    let rest = depth_of window ws in
    if w == window then some 0 else elim rest [ none ↦ none | some n ↦ some (suc n) ]

-- A grab that fits a press, and how well it does.
pub record Candidate : Type 0 where
  pub passive : PassiveButtonGrab
  pub depth : ℕ
  pub specificity : ℕ

unfoldable pub specificity_of : PassiveButtonGrabRequest → ℕ
specificity_of request =
    (if request.button != any_button then 2 else 0)
    + (if request.modifiers != any_modifier then 1 else 0)

unfoldable pub fits_press : ℕ → ℕ → PassiveButtonGrabRequest → Bool
fits_press button core_modifiers request =
    (request.button == any_button || request.button == button)
    && (request.modifiers == any_modifier || request.modifiers == core_modifiers)

unfoldable pub candidate : ℕ → ℕ → List ℕ → PassiveButtonGrab → Option Candidate
candidate button core_modifiers ancestry passive = elim (depth_of passive.request.window ancestry) [
  | none ↦ none
  | some depth ↦
      if fits_press button core_modifiers passive.request
      then some
          record { passive = passive; depth = depth; specificity = specificity_of passive.request }
      else none
]

unfoldable pub better : Candidate → Candidate → Bool
better c best =
    ltb c.depth best.depth
    || ((c.depth == best.depth && ltb best.specificity c.specificity)
        || (c.depth == best.depth
            && (c.specificity == best.specificity && ltb c.passive.serial best.passive.serial)))

-- One round of the loop of activate_passive_button.
unfoldable pub improve : Option Candidate → Option Candidate → Option Candidate
improve best none = best
improve none (some c) = some c
improve (some best) (some c) = if better c best then some c else some best

unfoldable pub best_of :
    ℕ → ℕ → List ℕ → List PassiveButtonGrab → Option Candidate → Option Candidate
best_of button core_modifiers ancestry [] best = best
best_of button core_modifiers ancestry (passive ∷ passives) best =
    best_of button core_modifiers ancestry passives
      (improve best (candidate button core_modifiers ancestry passive))

abbrev pub is_nil : List ℕ → Bool
is_nil [] = true
is_nil (x ∷ xs) = false

unfoldable pub take_best : ℕ → ℕ → Option Candidate → GrabState → GrabState × Bool
take_best button current_time none s = (s, false)
take_best button current_time (some best) s = (
  record s {
    pointer_grab = some record {
      origin = PointerGrabOrigin.passive_button;
      client = best.passive.request.client;
      window = best.passive.request.window;
      owner_events = best.passive.request.owner_events;
      event_mask = best.passive.request.event_mask;
      cursor = best.passive.request.cursor;
      cursor_image = best.passive.request.cursor_image;
      activation_time = current_time;
      held_buttons = button_bit button;
    };
    last_pointer_grab_time = current_time;
  },
  true,
)

unfoldable pub activate_passive_button : ℕ → ℕ → List ℕ → ℕ → GrabState → GrabState × Bool
activate_passive_button button modifiers ancestry current_time s =
    if is_some s.pointer_grab || (ltb button 1 || (ltb 9 button || is_nil ancestry))
    then (s, false)
    else take_best button current_time
        (best_of button (bit_and modifiers core_modifier_mask) ancestry s.passive_buttons none) s
