-- ===== src/Wm/Engine/Focus.antt =====
-- src/wm/policy_engine.cpp: the focus in the policy of a snapshot.
use glasswyrm.Prelude.{
  ℕ, ◌+◌, ◌≡◌, refl, sym, ◌∙◌, true, List, [], ◌∷◌, some, arith, Option-cases, Bool-cases, inl, inr,
}
use glasswyrm.Prelude.Int.{pos}
use glasswyrm.Prelude.Map
use glasswyrm.Prelude.Map.{NatMap, Everywhere, IsAscending, find-update}
use glasswyrm.Wm.Types.{RawState, WindowState, PolicyState, empty_policy}
use glasswyrm.Wm.Placement.Unfocused.{placement-IsUnfocused}
use glasswyrm.Wm.MultiOutput.Unfocused.{multi_output-IsUnfocused}
use glasswyrm.Wm.Focus.{apply_focus_and_visibility}
use glasswyrm.Wm.Focus.Unique.{IsUnfocused, focus_unique, focus_rights, HasFocusRights}
use glasswyrm.Wm.Ordering.{number_stacking, apply_stacking_and_transient_ordering, stacking_order}
use glasswyrm.Wm.Validation.{is_empty}
use glasswyrm.Wm.Engine.{geometry_policy, policy_of}

-- The state that a window had, but for its place in the stack.
abbrev Same : WindowState → WindowState → Type 0
Same old state = (old.focused ≡ state.focused) × (old.visible ≡ state.visible)

numbered :
    (id index j : ℕ) (windows : NatMap WindowState) (state : WindowState)
    → Map.find id (Map.update {V = WindowState} j (λ s. record s { stacking = pos index }) windows)
      ≡ some state
    → (old : WindowState) × (Map.find id windows ≡ some old) × Same old state
numbered id index j windows state found = elim (Option-cases (Map.find id windows)) [
  | inl e ↦ absurd (
      ground (
        arith,
        e,
        find-update j id (λ (s : WindowState). record s { stacking = pos index }) windows,
      ))
  | inr (old, e) ↦ (
    old,
    e,
    ground (
      arith,
      e,
      find-update j id (λ (s : WindowState). record s { stacking = pos index }) windows,
    ),
  )
]

number_stacking-Same :
    (id index : ℕ) (ids : List ℕ) (windows : NatMap WindowState) (state : WindowState)
    → Map.find id (number_stacking index ids windows) ≡ some state
    → (old : WindowState) × (Map.find id windows ≡ some old) × Same old state
unfolding number_stacking
number_stacking-Same id index [] windows state found = (state, found, (refl, refl))
number_stacking-Same id index (j ∷ ids) windows state found =
    let (mid, p, later) = number_stacking-Same id (index + 1) ids _ state found in
    let (old, q, now) = numbered id index j windows mid p in
    (old, q, (now.0 ∙ later.0, now.1 ∙ later.1))

geometry-IsUnfocused :
    (raw : RawState) (policy : PolicyState)
    → Everywhere IsUnfocused (geometry_policy raw policy).windows
unfolding geometry_policy
geometry-IsUnfocused raw policy = elim (Bool-cases (is_empty raw.outputs)) [
  | inl e ↦ rw e (placement-IsUnfocused raw policy)
  | inr e ↦ rw e (multi_output-IsUnfocused raw policy)
]

abbrev start : RawState → ℕ → PolicyState
start raw generation =
    geometry_policy raw (record empty_policy { generation = generation; context = raw.context })

focused_before :
    (raw : RawState) (generation id : ℕ) (state : WindowState)
    → Map.find id (policy_of raw generation).windows ≡ some state
    → (old : WindowState) × (Map.find id
          (apply_focus_and_visibility raw (start raw generation)).windows
        ≡ some old)
      × Same old state
unfolding policy_of apply_stacking_and_transient_ordering
focused_before raw generation id state found =
    number_stacking-Same id 0
      (stacking_order raw (apply_focus_and_visibility raw (start raw generation))) _ state found

-- In the policy of any snapshot at most one window has the focus.
pub policy_focus_unique :
    (raw : RawState) (generation a b : ℕ) (s t : WindowState)
    → Map.find a (policy_of raw generation).windows ≡ some s
    → Map.find b (policy_of raw generation).windows ≡ some t
    → s.focused ≡ true
    → t.focused ≡ true
    → a ≡ b
policy_focus_unique raw generation a b s t found_a found_b focused_a focused_b =
    let (s', p, f) = focused_before raw generation a s found_a in
    let (t', q, g) = focused_before raw generation b t found_b in
    focus_unique raw (start raw generation) (geometry-IsUnfocused raw _) a b s' t' p q
      (f.0 ∙ focused_a) (g.0 ∙ focused_b)

-- A window that has the focus in the policy of a snapshot, whose windows are a map, is visible,
-- and is a window of the snapshot that takes input and is not override-redirect.
pub policy_focus_rights :
    (raw : RawState) (generation id : ℕ) (s : WindowState)
    → IsAscending raw.windows
    → Map.find id (policy_of raw generation).windows ≡ some s
    → s.focused ≡ true
    → HasFocusRights raw id s
policy_focus_rights raw generation id s asc found focused =
    let (s', p, f) = focused_before raw generation id s found in
    let (shown, rest) =
      focus_rights raw (start raw generation) (geometry-IsUnfocused raw _) id s' asc p
        (f.0 ∙ focused) in
    (sym f.1 ∙ shown, rest)
