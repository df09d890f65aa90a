-- ===== src/Wm/Transaction.antt =====
-- src/wm/transaction.hpp and transaction.cpp: the snapshot that a producer builds up, and the policy
-- that is committed from it. Each operation returns the new state and its result.
pub mod Bounds
pub mod Commit
pub mod Rollback
mod Examples
use glasswyrm.Prelude.{
  ℕ, Bool, true, false, not, ◌&&◌, ◌||◌, ltb, leb, ◌==◌, ◌!=◌, if◌then◌else◌, Option, none, some,
  is_some, length,
}
use glasswyrm.Prelude.Map
use glasswyrm.Prelude.Map.{NatMap}
use glasswyrm.Wm.Types.{
  EvaluationError, nothing, incomplete_snapshot, invalid_window, output_failure, Context,
  OutputContext, WindowOutputHint, RawWindow, RawState, PolicyState, Evaluation, empty_raw,
  empty_policy, maximum_outputs, maximum_windows,
}
use glasswyrm.Wm.Engine.{evaluate, is_nothing}

pub record Transaction : Type 0 where
  pub pending : RawState
  pub committed_raw : RawState
  pub committed_policy : PolicyState
  pub pre_snapshot : Option RawState
  pub snapshot_active : Bool

abbrev pub empty_transaction : Transaction
empty_transaction = record {
  pending = empty_raw;
  committed_raw = empty_raw;
  committed_policy = empty_policy;
  pre_snapshot = none;
  snapshot_active = false;
}

-- A std::function, which may be empty.
abbrev pub OutputPreflight : Type 0
OutputPreflight = Option (PolicyState → Bool)

pub begin_snapshot : Transaction → Transaction × Bool
begin_snapshot t = if t.snapshot_active then (t, false) else (
  record t { pre_snapshot = some t.pending; pending = empty_raw; snapshot_active = true },
  true,
)

end_snapshot : Transaction → Transaction × Bool
end_snapshot t = if not t.snapshot_active || not t.pending.has_context then (t, false) else (
  record t {
    pending = record (t.pending) { complete = true };
    snapshot_active = false;
    pre_snapshot = none;
  },
  true,
)

restore : Transaction → Option RawState → Transaction × Bool
restore t none = (t, false)
restore t (some before) =
    (record t { pending = before; pre_snapshot = none; snapshot_active = false }, true)

pub abort_snapshot : Transaction → Transaction × Bool
unfolding restore
abort_snapshot t = if not t.snapshot_active then (t, false) else restore t t.pre_snapshot

abbrev closed : Transaction → Bool
closed t = not t.snapshot_active && not t.committed_raw.complete

upsert_context : Context → Transaction → Transaction × Bool
upsert_context context t =
    if closed t
    then (t, false)
    else (if t.snapshot_active && t.pending.has_context then (t, false) else (
      record t { pending = record (t.pending) { context = context; has_context = true } },
      true,
    ))

-- A map with its limit: a new key is refused when it is full.
abbrev is_full {ℓ} : {V : Type ℓ} → ℕ → ℕ → NatMap V → Bool
is_full maximum key m = not (Map.contains key m) && leb maximum (length m)

upsert_output : OutputContext → Transaction → Transaction × Bool
upsert_output output t =
    if closed t
    then (t, false)
    else (if is_full maximum_outputs output.output_id t.pending.outputs then (t, false) else (
      record t {
        pending = record (t.pending) {
          outputs = Map.insert output.output_id output t.pending.outputs;
        };
      },
      true,
    ))

upsert_hint : WindowOutputHint → Transaction → Transaction × Bool
upsert_hint hint t =
    if closed t
    then (t, false)
    else (if is_full maximum_windows hint.window_id t.pending.output_hints then (t, false) else (
      record t {
        pending = record (t.pending) {
          output_hints = Map.insert hint.window_id hint t.pending.output_hints;
        };
      },
      true,
    ))

upsert_window : RawWindow → Transaction → Transaction × Bool
upsert_window window t =
    if closed t
    then (t, false)
    else (if is_full maximum_windows window.window_id t.pending.windows then (t, false) else (
      record t {
        pending = record (t.pending) {
          windows = Map.insert window.window_id window t.pending.windows;
        };
      },
      true,
    ))

remove : ℕ → Transaction → Transaction × Bool
remove window_id t =
    if t.snapshot_active
      || not t.committed_raw.complete
      || window_id == 0
      || not (Map.contains window_id t.pending.windows)
    then (t, false)
    else (
      record t {
        pending = record (t.pending) {
          windows = Map.erase window_id t.pending.windows;
          output_hints = Map.erase window_id t.pending.output_hints;
        };
      },
      true,
    )

abbrev failed : EvaluationError → Evaluation
failed error = record { error = error; policy = empty_policy }

abbrev passes : OutputPreflight → PolicyState → Bool
passes none policy = true
passes (some preflight) policy = preflight policy

abbrev candidate_of : ℕ → Transaction → RawState
candidate_of generation t = record (t.pending) { producer_generation = generation }

-- The part of `commit` behind the evaluation.
install : Transaction → RawState → Evaluation → OutputPreflight → Transaction × Evaluation
install t candidate evaluated preflight =
    if not (is_nothing evaluated.error)
    then (t, evaluated)
    else (if not (passes preflight evaluated.policy) then (t, failed output_failure) else (
      record t {
        committed_raw = candidate;
        committed_policy = evaluated.policy;
        pending = candidate;
      },
      evaluated,
    ))

pub commit : ℕ → OutputPreflight → Transaction → Transaction × Evaluation
unfolding install
commit generation preflight t =
    if t.snapshot_active
    then (t, failed incomplete_snapshot)
    else (if generation == 0
          || (t.committed_raw.producer_generation != 0
              && ltb generation t.committed_raw.producer_generation)
        then (t, failed invalid_window)
        else install t (candidate_of generation t) (evaluate (candidate_of generation t) generation)
            preflight)

pub disconnect : Transaction → Transaction
disconnect t = empty_transaction

set_committed_policy_hash : ℕ → Transaction → Transaction
set_committed_policy_hash hash t = record t {
  committed_policy = record (t.committed_policy) { hash = hash };
}

-- One call of the interface.
pub data Call : Type 0 where
  begins ends aborts disconnects : Call
  puts_context : Context → Call
  puts_output : OutputContext → Call
  puts_hint : WindowOutputHint → Call
  puts_window : RawWindow → Call
  removes : ℕ → Call
  commits : ℕ → OutputPreflight → Call
  sets_hash : ℕ → Call

pub after : Call → Transaction → Transaction
unfolding begin_snapshot end_snapshot abort_snapshot upsert_context upsert_output upsert_hint
    upsert_window remove commit disconnect set_committed_policy_hash
after begins t = (begin_snapshot t).0
after ends t = (end_snapshot t).0
after aborts t = (abort_snapshot t).0
after disconnects t = disconnect t
after (puts_context context) t = (upsert_context context t).0
after (puts_output output) t = (upsert_output output t).0
after (puts_hint hint) t = (upsert_hint hint t).0
after (puts_window window) t = (upsert_window window t).0
after (removes window_id) t = (remove window_id t).0
after (commits generation preflight) t = (commit generation preflight t).0
after (sets_hash hash) t = set_committed_policy_hash hash t
