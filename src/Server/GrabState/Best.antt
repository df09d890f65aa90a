-- ===== src/Server/GrabState/Best.antt =====
-- Which passive grab a button press activates.
use glasswyrm.Prelude.{
  ℕ, false, List, [], ◌∷◌, Option, none, some, ◌≡◌, ◌≤◌, ◌<◌, ◌⊎◌, inl, inr, arith, refl,
  Option-cases, bit_and,
}
use glasswyrm.Server.GrabState.{
  GrabState, PassiveButtonGrab, Candidate, candidate, better, improve, best_of, take_best,
  activate_passive_button, core_modifier_mask, is_nil, button_bit, PointerGrab, PointerGrabOrigin,
}

abbrev NotBetter : Option Candidate → Candidate → Type 0
NotBetter none best = Unit {0}
NotBetter (some c) best = better c best ≡ false

-- A grab that fits comes after the best one: on a window further from the pointer, on the same window
-- with fewer of button and modifiers fixed, or else placed no earlier.
abbrev pub Follows : Option Candidate → Candidate → Type 0
Follows none best = Unit {0}
Follows (some c) best =
    (best.depth < c.depth)
    ⊎ ((best.depth ≡ c.depth) × (c.specificity < best.specificity))
    ⊎ ((best.depth ≡ c.depth)
        × (c.specificity ≡ best.specificity)
        × (best.passive.serial ≤ c.passive.serial))

improve-none : (acc new : Option Candidate) → improve acc new ≡ none → (acc ≡ none) × (new ≡ none)
unfolding improve
improve-none none none h = (refl, refl)
improve-none (some a) none h = absurd (ground (arith, h))
improve-none none (some c) h = absurd (ground (arith, h))
improve-none (some a) (some c) h = absurd (ground (arith, h))

module _ (button modifiers : ℕ) (ancestry : List ℕ) where
  -- The candidate of one of the passive grabs.
  abbrev pub Among : List PassiveButtonGrab → Candidate → Type 0
  Among [] c = ⊥
  Among (passive ∷ passives) c =
      (candidate button modifiers ancestry passive ≡ some c) ⊎ Among passives c

  abbrev pub NoneBetter : List PassiveButtonGrab → Candidate → Type 0
  NoneBetter [] best = Unit {0}
  NoneBetter (passive ∷ passives) best =
      NotBetter (candidate button modifiers ancestry passive) best × NoneBetter passives best

  -- No grab comes before the best one.
  abbrev pub Foremost : List PassiveButtonGrab → Candidate → Type 0
  Foremost [] best = Unit {0}
  Foremost (passive ∷ passives) best =
      Follows (candidate button modifiers ancestry passive) best × Foremost passives best

  abbrev pub NoCandidate : List PassiveButtonGrab → Type 0
  NoCandidate [] = Unit {0}
  NoCandidate (passive ∷ passives) =
      (candidate button modifiers ancestry passive ≡ none) × NoCandidate passives

  best_of-none :
      (passives : List PassiveButtonGrab) (acc : Option Candidate)
      → best_of button modifiers ancestry passives acc ≡ none
      → NoCandidate passives × (acc ≡ none)
  unfolding best_of improve
  best_of-none [] acc e = (tt, e)
  best_of-none (p ∷ ps) acc e =
      let ih = best_of-none ps (improve acc (candidate button modifiers ancestry p)) e in
      let both = improve-none acc (candidate button modifiers ancestry p) ih.1 in
      ((both.1, ih.0), both.0)

-- The grab that a chosen candidate becomes.
abbrev pub grab_of : ℕ → ℕ → Candidate → PointerGrab
grab_of button current_time best = record {
  origin = PointerGrabOrigin.passive_button;
  client = best.passive.request.client;
  window = best.passive.request.window;
  owner_events = best.passive.request.owner_events;
  event_mask = best.passive.request.event_mask;
  cursor = best.passive.request.cursor;
  cursor_image = best.passive.request.cursor_image;
  activation_time = current_time;
  held_buttons = button_bit button;
}

-- A press of a button from 1 to 9 with no pointer grab, on a window, activates no passive grab only
-- if none fits it, and then nothing changes.
activate_passive_button-none :
    (button modifiers : ℕ) (ancestry : List ℕ) (time : ℕ) (s s' : GrabState)
    → s.pointer_grab ≡ none
    → 1 ≤ button
    → button ≤ 9
    → is_nil ancestry ≡ false
    → activate_passive_button button modifiers ancestry time s ≡ (s', false)
    → NoCandidate button (bit_and modifiers core_modifier_mask) ancestry s.passive_buttons
      × (s' ≡ s)
unfolding activate_passive_button take_best
activate_passive_button-none button modifiers ancestry time s s' free low high on e =
    let core = bit_and modifiers core_modifier_mask in
    elim (Option-cases (best_of button core ancestry s.passive_buttons none)) [
      | inl k ↦
          ((best_of-none button core ancestry s.passive_buttons none k).0, ground (arith, e, k))
      | inr (best, k) ↦ absurd (ground (arith, e, k))
    ]
