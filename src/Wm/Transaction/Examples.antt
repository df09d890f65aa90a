-- ===== src/Wm/Transaction/Examples.antt =====
-- src/wm/transaction.cpp on a snapshot of one window.
use glasswyrm.Prelude.{
  ℕ, ◌≡◌, ◌≤◌, refl, Bool, true, false, List, [], ◌∷◌, Option, none, some, arith,
}
use glasswyrm.Prelude.Int.{pos}
use glasswyrm.Wm.Types.{Context, RawWindow, WindowType, DecorationPreference, StackMode, nothing}
use glasswyrm.Wm.Validation.{validate}
use glasswyrm.Wm.Engine.{evaluate, policy_of, is_nothing}
use glasswyrm.Wm.Transaction.{
  Transaction, empty_transaction, begin_snapshot, abort_snapshot, commit, candidate_of, passes,
  Call, begins, ends, commits, puts_context, puts_window, after,
}
use glasswyrm.Wm.Transaction.Bounds.{run, IsValid, run-IsValid}
use glasswyrm.Wm.Transaction.Commit.{commit_installs, IsSettled, run-IsSettled}
use glasswyrm.Wm.Transaction.Rollback.{abort-run-begin}

abbrev screen : Context
screen = record {
  root_window_id = 1;
  workspace_id = 1;
  output_id = 1;
  work_x = pos 0;
  work_y = pos 0;
  work_width = 800;
  work_height = 600;
  flags = 0;
}

abbrev window : RawWindow
window = record {
  window_id = 7;
  parent_window_id = 1;
  transient_for = 0;
  workspace_id = 1;
  requested_x = pos 20;
  requested_y = pos 30;
  requested_width = 200;
  requested_height = 100;
  border_width = 0;
  window_type = WindowType.normal;
  wants_map = true;
  override_redirect = false;
  decoration_preference = DecorationPreference.unknown;
  fullscreen_requested = false;
  maximized_requested = false;
  minimized_requested = false;
  attention_requested = false;
  creation_serial = 1;
  map_serial = 1;
  focus_serial = 1;
  flags = 0;
  geometry_serial = 0;
  stack_serial = 0;
  stack_sibling = 0;
  stack_mode = StackMode.unset;
}

abbrev building : List Call
building = begins ∷ puts_context screen ∷ puts_window window ∷ []

abbrev calls : List Call
calls = begins ∷ puts_context screen ∷ puts_window window ∷ ends ∷ commits 3 none ∷ []

abbrev ready : Transaction
ready = run (begins ∷ puts_context screen ∷ puts_window window ∷ ends ∷ []) empty_transaction

ready_commits : is_nothing (commit 3 none ready).1.error ≡ true
unfolding after commit evaluate glasswyrm.Prelude.Map.find validate
    glasswyrm.Wm.Validation.malformed_context glasswyrm.Wm.Validation.extent_fits
    glasswyrm.Prelude.Int.◌-ℤ◌ glasswyrm.Prelude.Int.◌+ℤ◌ glasswyrm.Prelude.Map.insert
    glasswyrm.Wm.Validation.validate_windows glasswyrm.Wm.Validation.validate_window
    glasswyrm.Prelude.any_of glasswyrm.Wm.Validation.any_cycle
    glasswyrm.Wm.Validation.transient_cycle
ready_commits = refl

commit_installs_example :
    (ready.snapshot_active ≡ false)
    × (1 ≤ 3)
    × (ready.committed_raw.producer_generation ≤ 3)
    × (validate (candidate_of 3 ready) ≡ nothing)
    × (passes none (policy_of (candidate_of 3 ready) 3) ≡ true)
    × ((commit 3 none ready).1.policy ≡ policy_of (candidate_of 3 ready) 3)
    × ((commit 3 none ready).0 ≡ record ready {
      pending = candidate_of 3 ready;
      committed_raw = candidate_of 3 ready;
      committed_policy = policy_of (candidate_of 3 ready) 3;
    })
commit_installs_example = commit_installs 3 none ready ready_commits

run-IsSettled_example : IsSettled (run calls empty_transaction)
run-IsSettled_example = run-IsSettled calls

run-IsValid_example : IsValid (run calls empty_transaction)
run-IsValid_example = run-IsValid calls

calls_close : (run calls empty_transaction).snapshot_active ≡ false
unfolding after evaluate glasswyrm.Prelude.Map.find validate
    glasswyrm.Wm.Validation.malformed_context glasswyrm.Wm.Validation.extent_fits
    glasswyrm.Prelude.Int.◌-ℤ◌ glasswyrm.Prelude.Int.◌+ℤ◌ glasswyrm.Prelude.Map.insert
    glasswyrm.Wm.Validation.validate_windows glasswyrm.Wm.Validation.validate_window
    glasswyrm.Prelude.any_of glasswyrm.Wm.Validation.any_cycle
    glasswyrm.Wm.Validation.transient_cycle
calls_close = refl

abort-run-begin_example :
    abort_snapshot (run building (begin_snapshot (run calls empty_transaction)).0)
    ≡ (run calls empty_transaction, true)
abort-run-begin_example =
    abort-run-begin (run calls empty_transaction) building (run-IsValid calls) calls_close refl
