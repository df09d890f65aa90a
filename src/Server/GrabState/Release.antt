-- ===== src/Server/GrabState/Release.antt =====
-- What a cleanup leaves, and where events go while there is a grab.
use glasswyrm.Prelude.{
  ℕ, Bool, true, false, List, [], ◌∷◌, Option, none, some, ◌≡◌, All, keep_if, arith, refl, sym,
  subst, Bool-cases, inl, inr, ◌⊎◌, not, ◌==◌, keep_if_passes, bit_and, ◌!=◌, if◌then◌else◌,
}
use glasswyrm.Server.GrabState.{
  GrabState, PointerGrab, KeyboardGrab, PassiveButtonGrab, GrabRouteInput, GrabRouteKind, cleanup,
  cleanup_client, cleanup_window, held_by_pointer, held_by_keyboard, pointer_on_window,
  keyboard_on_window, route_pointer, route_keyboard, to_owner,
}

-- No active grab and no passive grab of a client is left.
abbrev pub ClientGone : ℕ → GrabState → Type 0
ClientGone client s =
    (held_by_pointer client s.pointer_grab ≡ false)
    × (held_by_keyboard client s.keyboard_grab ≡ false)
    × All (λ p. (p.request.client == client) ≡ false) s.passive_buttons

abbrev pub WindowGone : ℕ → GrabState → Type 0
WindowGone window s =
    (pointer_on_window window s.pointer_grab ≡ false)
    × (keyboard_on_window window s.keyboard_grab ≡ false)
    × All (λ p. (p.request.window == window) ≡ false) s.passive_buttons

not-true : (b : Bool) → not b ≡ true → b ≡ false
not-true b h = ground arith

gone {ℓ} :
    {A : Type ℓ} (has : Option A → Bool) (holder : Option A)
    → has none ≡ false
    → has (if has holder then none else holder) ≡ false
gone {A} has holder h = elim (Bool-cases (has holder)) [
  | inl e ↦ subst (λ (b : Bool). has (if b then none else holder) ≡ false) (sym e) h
  | inr e ↦ subst (λ (b : Bool). has (if b then none else holder) ≡ false) (sym e) e
]

none_owned :
    (test : PassiveButtonGrab → Bool) (ps : List PassiveButtonGrab)
    → All (λ p. not (test p) ≡ true) ps
    → All (λ p. test p ≡ false) ps
none_owned test [] h = tt
none_owned test (p ∷ ps) h = (not-true (test p) h.0, none_owned test ps h.1)

-- The cleanup of a client leaves no grab of it, the cleanup of a window none on it; both keep the
-- passive grabs of the others in their order, and tell whether an active grab was released.
cleanup_gone :
    (client window : ℕ) (s : GrabState)
    → ClientGone client (cleanup_client client s).0
      × WindowGone window (cleanup_window window s).0
      × ((cleanup_client client s).0.passive_buttons
          ≡ keep_if (λ p. not (p.request.client == client)) s.passive_buttons)
      × ((cleanup_window window s).0.passive_buttons
          ≡ keep_if (λ p. not (p.request.window == window)) s.passive_buttons)
      × ((cleanup_client client s).1.pointer_released ≡ held_by_pointer client s.pointer_grab)
      × ((cleanup_window window s).1.pointer_released ≡ pointer_on_window window s.pointer_grab)
unfolding cleanup_client cleanup_window cleanup
cleanup_gone client window s =
    let owned = λ (p : PassiveButtonGrab). p.request.client == client in
    let on = λ (p : PassiveButtonGrab). p.request.window == window in
    (
      (
        gone (held_by_pointer client) s.pointer_grab refl,
        gone (held_by_keyboard client) s.keyboard_grab refl,
        none_owned owned (keep_if (λ p. not (owned p)) s.passive_buttons)
            (keep_if_passes (λ p. not (owned p)) s.passive_buttons),
      ),
      (
        gone (pointer_on_window window) s.pointer_grab refl,
        gone (keyboard_on_window window) s.keyboard_grab refl,
        none_owned on (keep_if (λ p. not (on p)) s.passive_buttons)
            (keep_if_passes (λ p. not (on p)) s.passive_buttons),
      ),
      refl,
      refl,
      refl,
      refl,
    )

pointer_route :
    (input : GrabRouteInput) (s : GrabState) (g : PointerGrab)
    → s.pointer_grab ≡ some g
    → ((route_pointer input s).client ≡ g.client)
      ⊎ ((route_pointer input s).kind ≡ GrabRouteKind.suppressed)
unfolding route_pointer
pointer_route input s g e =
    elim (Bool-cases (to_owner g.owner_events g.client input.natural_client)) [
      | inl b ↦ inl (ground (arith, e, b))
      | inr b ↦ elim (Bool-cases (bit_and g.event_mask input.event_mask != 0)) [
        | inl c ↦ inl (ground (arith, e, b, c))
        | inr c ↦ inr (ground (arith, e, b, c))
      ]
    ]

keyboard_route :
    (input : GrabRouteInput) (s : GrabState) (k : KeyboardGrab)
    → s.keyboard_grab ≡ some k
    → (route_keyboard input s).client ≡ k.client
unfolding route_keyboard
keyboard_route input s k f = ground (arith, f)

-- With a pointer grab, a pointer event goes to the client of the grab or to nobody; with a keyboard
-- grab, a keyboard event goes to its client. The owner gets it as if there was no grab only if it
-- asked for that and the event is its own.
routes_to_holder :
    (input : GrabRouteInput) (s : GrabState) (g : PointerGrab) (k : KeyboardGrab)
    → s.pointer_grab ≡ some g
    → s.keyboard_grab ≡ some k
    → (((route_pointer input s).client ≡ g.client)
        ⊎ ((route_pointer input s).kind ≡ GrabRouteKind.suppressed))
      × ((route_keyboard input s).client ≡ k.client)
      × ((route_pointer input s).crossing_target ≡ input.real_pointer_target)
unfolding route_pointer route_keyboard
routes_to_holder input s g k e f =
    (pointer_route input s g e, keyboard_route input s k f, ground (arith, e))
