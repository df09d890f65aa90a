-- ===== src/Wm/Focus/Unique.antt =====
-- src/wm/policy_focus.cpp: the focused window.
use glasswyrm.Prelude.{
  suc, ◌≤◌, ℕ, ◌≡◌, refl, sym, ap, subst, ◌∙◌, inl, inr, List, [], ◌∷◌, some, true, false, arith,
  ◌==◌, ==_iff, if◌then◌else◌, some_or, All, All-mono, ==_refl, Bool-cases, Option-cases,
}
use mathlib.Core.Option.{some-injective}
use glasswyrm.Prelude.Map
use glasswyrm.Prelude.Map.{
  NatMap, IsAscending, From, Everywhere, map_values-Everywhere, update-Everywhere, find-map_values,
  find-update,
}
use glasswyrm.Prelude.Sort.{lex_lt}
use glasswyrm.Wm.Types.{RawWindow, RawState, WindowState, PolicyState, empty_state}
use glasswyrm.Wm.Lookup.{flag_set, input_disabled_flag, transient_parent_first}
use glasswyrm.Wm.Focus.{
  selection_key, apply_visibility, hide_with_parents, own_visibility, fullscreen_eligibility,
  can_focus, focus_candidates, max_element, select_focus, give_focus, apply_focus,
  presentation_eligibility, apply_focus_and_visibility,
}

abbrev pub IsUnfocused : ℕ → WindowState → Type 0
IsUnfocused id state = state.focused ≡ false

hide_with_parents-IsUnfocused :
    (ids : List ℕ) (windows : NatMap WindowState)
    → Everywhere IsUnfocused windows
    → Everywhere IsUnfocused (hide_with_parents ids windows)
unfolding hide_with_parents
hide_with_parents-IsUnfocused [] windows h = h
hide_with_parents-IsUnfocused (id ∷ ids) windows h =
    hide_with_parents-IsUnfocused ids _ (update-Everywhere IsUnfocused id _ windows (λ v e. e) h)

apply_visibility-IsUnfocused :
    (raw : RawState) (windows : NatMap WindowState)
    → Everywhere IsUnfocused windows
    → Everywhere IsUnfocused (apply_visibility raw windows)
unfolding apply_visibility
apply_visibility-IsUnfocused raw windows h =
    map_values-Everywhere IsUnfocused IsUnfocused fullscreen_eligibility _ (λ k v e. e)
      (hide_with_parents-IsUnfocused (transient_parent_first raw) _
        (map_values-Everywhere IsUnfocused IsUnfocused (own_visibility raw) windows (λ k v e. e) h))

-- A window that may have the focus, in the snapshot and in the policy.
abbrev Eligible : NatMap WindowState → NatMap RawWindow → ℕ → Type 0
Eligible windows raw_windows id =
    (window : RawWindow) × (Map.find id raw_windows ≡ some window)
    × (can_focus windows id window ≡ true)

find_head :
    (id k : ℕ) (window : RawWindow) (m : NatMap RawWindow)
    → Map.find id ((k, window) ∷ m) ≡ (if k == id then some window else Map.find id m)
unfolding Map.find
find_head id k window m = refl

below_head :
    (n id : ℕ) (m : NatMap RawWindow) (window : RawWindow)
    → From n m
    → Map.find id m ≡ some window
    → n ≤ id
unfolding Map.find
below_head n id [] window f e = cc
below_head n id ((j, w) ∷ m) window f e = ground (arith, below_head (suc j) id m window f.1)

focus_candidates-Eligible :
    (windows : NatMap WindowState) (n : ℕ) (m : NatMap RawWindow)
    → From n m
    → All (Eligible windows m) (focus_candidates windows m)
unfolding focus_candidates
focus_candidates-Eligible windows n [] f = tt
focus_candidates-Eligible windows n ((id, window) ∷ m) f =
    let rest : All (Eligible windows ((id, window) ∷ m)) (focus_candidates windows m) =
      All-mono (Eligible windows m) (Eligible windows ((id, window) ∷ m)) _ later
        (focus_candidates-Eligible windows (suc id) m f.1) in
    elim (Bool-cases (can_focus windows id window)) [
      | inl ok ↦ rw ok ((window, rw (find_head, ==_refl id), ok), rest)
      | inr no_focus ↦ rw no_focus rest
    ]
  where
    later : (i : ℕ) → Eligible windows m i → Eligible windows ((id, window) ∷ m) i
    later i (w, found, ok) =
        let other : (id == i) ≡ false = ground (arith, below_head (suc id) i m w f.1 found) in
        (w, rw (find_head, other) found, ok)

max_element-All :
    (P : ℕ → Type 0) (key : ℕ → List ℕ) (best : ℕ) (ids : List ℕ)
    → P best
    → All P ids
    → P (max_element key best ids)
unfolding max_element
max_element-All P key best [] h a = h
max_element-All P key best (id ∷ ids) h a = elim (Bool-cases (lex_lt (key best) (key id))) [
  | inl e ↦ rw e (max_element-All P key id ids a.0 a.1)
  | inr e ↦ rw e (max_element-All P key best ids h a.1)
]

select_focus-All :
    (P : ℕ → Type 0) (raw : RawState) (windows : NatMap WindowState) (ids : List ℕ) (id : ℕ)
    → All P ids
    → select_focus raw windows ids ≡ some id
    → P id
unfolding select_focus
select_focus-All P raw windows [] id a e = cc
select_focus-All P raw windows (i ∷ ids) id a e =
    subst P (some-injective _ _ e)
      (max_element-All P (selection_key raw windows (i ∷ ids)) i ids a.0 a.1)

give_focus_focused :
    (i id : ℕ) (windows : NatMap WindowState) (state : WindowState)
    → Everywhere IsUnfocused windows
    → Map.find id (give_focus (some i) windows) ≡ some state
    → state.focused ≡ true
    → i ≡ id
give_focus_focused i id windows state u found focused = elim (Bool-cases (i == id)) [
  | inl same ↦ (==_iff i id).0 same
  | inr differs ↦ cc (u id state (rw (find-update, differs) at found))
]

-- A focused window after `apply_focus` is the selected one.
apply_focus_focused :
    (raw : RawState) (windows : NatMap WindowState)
    → Everywhere IsUnfocused windows
    → (id : ℕ) (state : WindowState) → Map.find id (apply_focus raw windows) ≡ some state
    → state.focused ≡ true
    → select_focus raw windows (focus_candidates windows raw.windows) ≡ some id
unfolding apply_focus
apply_focus_focused raw windows u id state found focused =
    elim (Option-cases (select_focus raw windows (focus_candidates windows raw.windows))) [
      | inl e ↦ cc (u id state (rw e at found))
      | inr (i, e) ↦
          rw e (ap some (give_focus_focused i id windows state u (rw e at found) focused))
    ]

give_focus_visible :
    (id : ℕ) (windows : NatMap WindowState) (state : WindowState)
    → Map.find id (give_focus (some id) windows) ≡ some state
    → (some_or (Map.find id windows) empty_state).visible ≡ state.visible
give_focus_visible id windows state found = elim (Option-cases (Map.find id windows)) [
  | inl e ↦ absurd (
      ground
        (arith, e, find-update id id (λ (s : WindowState). record s { focused = true }) windows))
  | inr (old, e) ↦
      ground
        (arith, e, find-update id id (λ (s : WindowState). record s { focused = true }) windows)
]

-- What the snapshot and the visibility say of a window with the focus.
abbrev pub HasFocusRights : RawState → ℕ → WindowState → Type 0
HasFocusRights raw id state =
    (state.visible ≡ true)
    × ((window : RawWindow) × (Map.find id raw.windows ≡ some window)
        × (window.override_redirect ≡ false)
        × (flag_set window.flags input_disabled_flag ≡ false))

apply_focus_rights :
    (raw : RawState) (windows : NatMap WindowState)
    → IsAscending raw.windows
    → Everywhere IsUnfocused windows
    → (id : ℕ) (state : WindowState) → Map.find id (apply_focus raw windows) ≡ some state
    → state.focused ≡ true
    → HasFocusRights raw id state
unfolding apply_focus can_focus
apply_focus_rights raw windows asc u id state found focused =
    let selected = apply_focus_focused raw windows u id state found focused in
    let (window, known, ok) =
      select_focus-All (Eligible windows raw.windows) raw windows _ id
        (focus_candidates-Eligible windows 0 raw.windows asc) selected in
    let seen = give_focus_visible id windows state (rw selected at found) in
    (ground (arith, seen, ok), (window, known, ground (arith, ok), ground (arith, ok)))

-- The last pass keeps the window's focus and visibility.
before_eligibility :
    (m : NatMap WindowState) (id : ℕ) (state : WindowState)
    → Map.find id (Map.map_values presentation_eligibility m) ≡ some state
    → (old : WindowState) × (Map.find id m ≡ some old)
      × (old.focused ≡ state.focused)
      × (old.visible ≡ state.visible)
before_eligibility m id state found = elim (Option-cases (Map.find id m)) [
  | inl e ↦ absurd (ground (arith, e, find-map_values id presentation_eligibility m))
  | inr (old, e) ↦
      let same : presentation_eligibility id old ≡ state =
        ground (arith, e, find-map_values id presentation_eligibility m) in
      (old, e, ap (λ (s : WindowState). s.focused) same, ap (λ (s : WindowState). s.visible) same)
]

module _ (raw : RawState) (policy : PolicyState) (u : Everywhere IsUnfocused policy.windows) where
  -- Of a policy in which no window had the focus, at most one window has it afterwards.
  pub focus_unique :
      (a b : ℕ) (s t : WindowState)
      → Map.find a (apply_focus_and_visibility raw policy).windows ≡ some s
      → Map.find b (apply_focus_and_visibility raw policy).windows ≡ some t
      → s.focused ≡ true
      → t.focused ≡ true
      → a ≡ b
  unfolding apply_focus_and_visibility
  focus_unique a b s t found_a found_b focused_a focused_b =
      let visible = apply_visibility raw policy.windows in
      let clean = apply_visibility-IsUnfocused raw policy.windows u in
      let (s', p, f, _) = before_eligibility _ a s found_a in
      let (t', q, g, _) = before_eligibility _ b t found_b in
      some-injective _ _ (
        sym (apply_focus_focused raw visible clean a s' p (f ∙ focused_a))
        ∙ apply_focus_focused raw visible clean b t' q (g ∙ focused_b))

  -- The window that has it is visible, and is a window of the snapshot that takes input and is not
  -- override-redirect.
  pub focus_rights :
      (id : ℕ) (s : WindowState)
      → IsAscending raw.windows
      → Map.find id (apply_focus_and_visibility raw policy).windows ≡ some s
      → s.focused ≡ true
      → HasFocusRights raw id s
  unfolding apply_focus_and_visibility
  focus_rights id s asc found focused =
      let visible = apply_visibility raw policy.windows in
      let clean = apply_visibility-IsUnfocused raw policy.windows u in
      let (s', p, f, v) = before_eligibility _ id s found in
      let (shown, rest) = apply_focus_rights raw visible asc clean id s' p (f ∙ focused) in
      (sym v ∙ shown, rest)
