-- ===== src/Wm/Validation/OutputChecks.antt =====
-- src/wm/policy_validation.cpp: the checks of the outputs and of the hints.
use glasswyrm.Prelude.{
  ℕ, ◌+◌, ◌-◌, ◌*◌, ◌^◌, max, List, [], ◌∷◌, Option, none, some, Bool, true, false, not, ◌&&◌, ◌||◌,
  ltb, leb, ◌==◌, ◌!=◌, if◌then◌else◌, any_of, length,
}
use glasswyrm.Prelude.Gcd.{gcd}
use glasswyrm.Prelude.Int.{ℤ, pos, ◌+ℤ◌, ◌-ℤ◌, ltb_ℤ, leb_ℤ, eqb_ℤ, pos_part}
use glasswyrm.Prelude.Map
use glasswyrm.Prelude.Map.{NatMap}
use glasswyrm.Prelude.Sort.{bit}
use glasswyrm.Wm.Types.{
  nothing, invalid_context, invalid_window, limit, EvaluationError, Rectangle, OutputContext,
  WindowOutputHint, RawState, maximum_outputs, maximum_work_extent,
}

unfoldable pub extent_fits : ℤ → ℕ → Bool
extent_fits origin extent = extent != 0 && leb_ℤ (origin +ℤ pos extent -ℤ pos 1) (pos (2 ^ 31 - 1))

valid_rectangle : Rectangle → Bool
unfolding extent_fits
valid_rectangle r =
    leb_ℤ (pos 0) r.x
    && leb_ℤ (pos 0) r.y
    && r.width != 0
    && r.height != 0
    && leb r.width maximum_work_extent
    && leb r.height maximum_work_extent
    && extent_fits r.x r.width
    && extent_fits r.y r.height

rectangle_contains : Rectangle → Rectangle → Bool
rectangle_contains outer inner =
    leb_ℤ outer.x inner.x
    && leb_ℤ outer.y inner.y
    && leb_ℤ (inner.x +ℤ pos inner.width) (outer.x +ℤ pos outer.width)
    && leb_ℤ (inner.y +ℤ pos inner.height) (outer.y +ℤ pos outer.height)

overlaps : Rectangle → Rectangle → Bool
overlaps left right =
    ltb_ℤ left.x (right.x +ℤ pos right.width)
    && ltb_ℤ right.x (left.x +ℤ pos left.width)
    && ltb_ℤ left.y (right.y +ℤ pos right.height)
    && ltb_ℤ right.y (left.y +ℤ pos left.height)

valid_scale : OutputContext → Bool
valid_scale output =
    output.scale_numerator != 0
    && output.scale_denominator != 0
    && leb output.scale_denominator 120
    && gcd output.scale_numerator output.scale_denominator == 1
    && leb output.scale_denominator output.scale_numerator
    && leb output.scale_numerator (4 * output.scale_denominator)

is_zero_rectangle : Rectangle → Bool
is_zero_rectangle r = eqb_ℤ r.x (pos 0) && eqb_ℤ r.y (pos 0) && r.width == 0 && r.height == 0

-- What one round of the loop over the outputs refuses.
valid_output_entry : ℕ → OutputContext → Bool
unfolding valid_scale is_zero_rectangle valid_rectangle rectangle_contains
valid_output_entry id output =
    not (
      id == 0
      || id != output.output_id
      || output.flags != 0
      || ltb 7 output.transform
      || not (valid_scale output)
      || (output.primary && not output.enabled))
    && (if output.enabled
        then valid_rectangle output.logical
          && valid_rectangle output.work
          && rectangle_contains output.logical output.work
        else not output.primary
          && is_zero_rectangle output.logical
          && is_zero_rectangle output.work)

-- The accumulators of the loop, over the enabled outputs.
enabled_outputs : NatMap OutputContext → List OutputContext
enabled_outputs [] = []
enabled_outputs ((id, output) ∷ m) =
    if output.enabled then output ∷ enabled_outputs m else enabled_outputs m

primary_count : List OutputContext → ℕ
primary_count [] = 0
primary_count (output ∷ outputs) = bit output.primary + primary_count outputs

-- The coordinates are not negative once the rectangles are valid.
maximum_right : List OutputContext → ℕ
maximum_right [] = 0
maximum_right (output ∷ outputs) =
    max (pos_part (output.logical.x +ℤ pos output.logical.width)) (maximum_right outputs)

maximum_bottom : List OutputContext → ℕ
maximum_bottom [] = 0
maximum_bottom (output ∷ outputs) =
    max (pos_part (output.logical.y +ℤ pos output.logical.height)) (maximum_bottom outputs)

any_overlap : List OutputContext → Bool
unfolding overlaps
any_overlap [] = false
any_overlap (output ∷ outputs) =
    any_of (λ right. overlaps output.logical right.logical) outputs || any_overlap outputs

valid_entries : NatMap OutputContext → Bool
unfolding valid_output_entry
valid_entries [] = true
valid_entries ((id, output) ∷ m) = valid_output_entry id output && valid_entries m

abbrev is_primary : Option OutputContext → Bool
is_primary none = false
is_primary (some output) = output.primary

unfoldable pub validate_outputs : RawState → EvaluationError
unfolding valid_entries any_overlap enabled_outputs primary_count maximum_right maximum_bottom
validate_outputs raw =
    let chosen = enabled_outputs raw.outputs in
    let c = raw.context in
    if ltb maximum_outputs (length raw.outputs)
    then limit
    else (if not (valid_entries raw.outputs)
          || any_overlap chosen
          || length chosen == 0
          || primary_count chosen != 1
          || not (is_primary (Map.find c.output_id raw.outputs))
          || not (eqb_ℤ c.work_x (pos 0))
          || not (eqb_ℤ c.work_y (pos 0))
          || c.work_width != maximum_right chosen
          || c.work_height != maximum_bottom chosen
        then invalid_context
        else nothing)

valid_hints : RawState → NatMap WindowOutputHint → Bool
valid_hints raw [] = true
valid_hints raw ((id, hint) ∷ m) =
    not (id == 0 || id != hint.window_id || hint.flags != 0 || not (Map.contains id raw.windows))
    && valid_hints raw m

unfoldable pub validate_hints : RawState → EvaluationError
unfolding valid_hints
validate_hints raw =
    if ltb (length raw.windows) (length raw.output_hints)
    then limit
    else (if valid_hints raw raw.output_hints then nothing else invalid_window)
