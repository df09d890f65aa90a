-- ===== src/Wm/Validation.antt =====
-- src/wm/policy_validation.cpp: which snapshots the policy engine accepts.
mod OutputChecks
pub mod Cycles
unfoldable pub use OutputChecks.*
use glasswyrm.Prelude.{
  ℕ, zero, suc, ◌+◌, ◌-◌, ◌*◌, ◌/◌, ◌%◌, ◌^◌, max, List, [], ◌∷◌, ◌++◌, Option, none, some, Bool,
  true, false, not, ◌&&◌, ◌||◌, ltb, leb, ◌==◌, ◌!=◌, if◌then◌else◌, any_of, all_of, length,
  is_some, some_or,
}
use glasswyrm.Wm.Lookup.{empty_window}
use glasswyrm.Prelude.Gcd.{gcd}
use glasswyrm.Prelude.Int.{ℤ, pos, ◌+ℤ◌, ◌-ℤ◌, ltb_ℤ, leb_ℤ, eqb_ℤ, pos_part}
use glasswyrm.Prelude.Map
use glasswyrm.Prelude.Map.{NatMap}
use glasswyrm.Prelude.Sort.{bit}
use glasswyrm.Wm.Types.{
  nothing, incomplete_snapshot, invalid_context, invalid_window, unknown_reference, limit,
  unsupported_metadata, WindowType, DecorationPreference, StackMode, EvaluationError, Context,
  Rectangle, OutputContext, WindowOutputHint, RawWindow, RawState, maximum_windows, maximum_outputs,
  maximum_work_extent, maximum_root_extent, maximum_window_extent, maximum_border_width,
}

abbrev known_window_type : WindowType → Bool
known_window_type (WindowType.other n) = false
known_window_type _ = true

abbrev known_decoration : DecorationPreference → Bool
known_decoration (DecorationPreference.other n) = false
known_decoration _ = true

abbrev known_stack_mode : StackMode → Bool
known_stack_mode (StackMode.other n) = false
known_stack_mode _ = true

abbrev known_metadata : RawWindow → Bool
known_metadata window =
    known_window_type window.window_type
    && known_decoration window.decoration_preference
    && known_stack_mode window.stack_mode

abbrev is_unset : StackMode → Bool
is_unset StackMode.unset = true
is_unset _ = false

-- The first condition of `validate_window`, without the insertion of the serial.
unfoldable pub malformed : RawState → RawWindow → Bool
malformed raw window =
    let id = window.window_id in
    id == 0
    || id == raw.context.root_window_id
    || window.parent_window_id != raw.context.root_window_id
    || window.creation_serial == 0
    || window.requested_width == 0
    || window.requested_height == 0
    || ltb maximum_window_extent window.requested_width
    || ltb maximum_window_extent window.requested_height
    || ltb maximum_border_width window.border_width
    || window.flags / 2 ^ 3 != 0
    || not (known_metadata window)
    || (window.stack_serial == 0 && (window.stack_sibling != 0 || not (is_unset window.stack_mode)))
    || (window.stack_serial != 0 && is_unset window.stack_mode)
    || window.stack_sibling == id
    || (window.wants_map && window.map_serial == 0)
    || not (extent_fits window.requested_x window.requested_width)
    || not (extent_fits window.requested_y window.requested_height)

abbrev bad_target : Option RawWindow → Bool
bad_target none = true
bad_target (some target) = target.override_redirect

sibling_error : Option RawWindow → Bool → EvaluationError
sibling_error none override_redirect = unknown_reference
sibling_error (some sibling) override_redirect =
    if sibling.transient_for != 0
      || (if override_redirect then not sibling.override_redirect else sibling.override_redirect)
    then unsupported_metadata
    else nothing

stack_error : RawState → RawWindow → EvaluationError
unfolding sibling_error
stack_error raw window =
    if window.stack_serial == 0
    then nothing
    else (if window.transient_for != 0
        then unsupported_metadata
        else (if window.stack_sibling == 0
            then nothing
            else sibling_error (Map.find window.stack_sibling raw.windows)
                window.override_redirect))

-- `serials` are the creation serials of the windows before.
unfoldable pub validate_window : RawState → RawWindow → List ℕ → EvaluationError
unfolding malformed stack_error
validate_window raw window serials =
    if malformed raw window || any_of (λ s. s == window.creation_serial) serials
    then invalid_window
    else (if window.workspace_id != 0 && window.workspace_id != raw.context.workspace_id
        then unsupported_metadata
        else (if window.transient_for == window.window_id
            then invalid_window
            else (if window.transient_for != 0
                  && bad_target (Map.find window.transient_for raw.windows)
                then unknown_reference
                else stack_error raw window)))

-- The first error decides.
infixr 6 ◌then_check◌
abbrev pub ◌then_check◌ : EvaluationError → EvaluationError → EvaluationError
nothing then_check next = next
incomplete_snapshot then_check next = incomplete_snapshot
invalid_context then_check next = invalid_context
invalid_window then_check next = invalid_window
unknown_reference then_check next = unknown_reference
limit then_check next = limit
unsupported_metadata then_check next = unsupported_metadata
EvaluationError.output_failure then_check next = EvaluationError.output_failure

unfoldable pub validate_windows : RawState → NatMap RawWindow → List ℕ → EvaluationError
validate_windows raw [] serials = nothing
validate_windows raw ((id, window) ∷ m) serials =
    (if id != window.window_id then invalid_window else validate_window raw window serials)
    then_check validate_windows raw m (window.creation_serial ∷ serials)

-- The loop of `transient_cycle` from `current`. `visited` is kept as its complement, the windows not
-- yet visited: `insert` fails on an id that is a window of the snapshot and is not among them. The
-- fuel is their number; `none` means that it ran out.
unfoldable pub cycle_loop : ℕ → NatMap RawWindow → ℕ → NatMap RawWindow → Option Bool
cycle_loop zero all current unvisited = none
cycle_loop (suc fuel) all current unvisited =
    let next = (some_or (Map.find current all) empty_window).transient_for in
    let rest = cycle_loop fuel all next (Map.erase current unvisited) in
    if current == 0
    then some false
    else (if not (Map.contains current all)
        then some false
        else (if not (Map.contains current unvisited) then some true else rest))

unfoldable pub transient_cycle : RawState → ℕ → Bool
unfolding cycle_loop
transient_cycle raw id =
    some_or (cycle_loop (length raw.windows + 1) raw.windows id raw.windows) true

unfoldable pub any_cycle : RawState → NatMap RawWindow → Bool
any_cycle raw [] = false
any_cycle raw ((id, window) ∷ m) = transient_cycle raw id || any_cycle raw m

abbrev pub is_empty {ℓ} : {V : Type ℓ} → NatMap V → Bool
is_empty [] = true
is_empty (_ ∷ _) = false

abbrev work_limit : RawState → ℕ
work_limit raw = if is_empty raw.outputs then maximum_work_extent else maximum_root_extent

unfoldable pub malformed_context : RawState → Bool
malformed_context raw =
    let c = raw.context in
    c.root_window_id == 0
    || c.workspace_id == 0
    || c.output_id == 0
    || c.flags != 0
    || c.work_width == 0
    || c.work_height == 0
    || ltb (work_limit raw) c.work_width
    || ltb (work_limit raw) c.work_height
    || not (extent_fits c.work_x c.work_width)
    || not (extent_fits c.work_y c.work_height)

unfoldable pub validate : RawState → EvaluationError
validate raw =
    (if not raw.complete || not raw.has_context then incomplete_snapshot else nothing)
    then_check (if malformed_context raw then invalid_context else nothing)
    then_check (if is_empty raw.outputs
        then (if is_empty raw.output_hints then nothing else unsupported_metadata)
        else validate_outputs raw then_check validate_hints raw)
    then_check (if ltb maximum_windows (length raw.windows) then limit else nothing)
    then_check validate_windows raw raw.windows []
    then_check (if any_cycle raw raw.windows then invalid_window else nothing)
