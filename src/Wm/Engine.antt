-- ===== src/Wm/Engine.antt =====
-- src/wm/policy_engine.cpp: from a snapshot to a policy.
pub mod Focus
mod Examples
use glasswyrm.Prelude.{ℕ, Bool, true, false, not, ◌==◌, if◌then◌else◌}
use glasswyrm.Wm.Types.{
  EvaluationError, nothing, invalid_window, RawState, PolicyState, Evaluation, empty_policy,
}
use glasswyrm.Wm.Placement.{apply_placement_and_fullscreen_geometry, assign_outputs}
use glasswyrm.Wm.MultiOutput.{apply_multi_output_geometry}
use glasswyrm.Wm.Focus.{apply_focus_and_visibility}
use glasswyrm.Wm.Ordering.{apply_stacking_and_transient_ordering}
use glasswyrm.Wm.Hash.{policy_hash}
use glasswyrm.Wm.Validation.{validate, is_empty}

abbrev pub is_nothing : EvaluationError → Bool
is_nothing nothing = true
is_nothing _ = false

pub geometry_policy : RawState → PolicyState → PolicyState
geometry_policy raw policy =
    if is_empty raw.outputs
    then assign_outputs raw (apply_placement_and_fullscreen_geometry raw policy)
    else apply_multi_output_geometry raw policy

abbrev with_hash : PolicyState → PolicyState
with_hash policy = record policy { hash = policy_hash policy }

-- The policy of a valid snapshot.
unfoldable pub policy_of : RawState → ℕ → PolicyState
unfolding geometry_policy
policy_of raw generation = with_hash (
    apply_stacking_and_transient_ordering raw (
      apply_focus_and_visibility raw (
        geometry_policy raw
          (record empty_policy { generation = generation; context = raw.context }))))

unfoldable pub evaluate : RawState → ℕ → Evaluation
evaluate raw generation =
    let error = validate raw in
    if not (is_nothing error)
    then record { error = error; policy = empty_policy }
    else (if generation == 0
        then record { error = invalid_window; policy = empty_policy }
        else record { error = nothing; policy = policy_of raw generation })
