-- ===== src/Wm/Transaction/Rollback.antt =====
-- src/wm/transaction.cpp: a snapshot that is given up.
use glasswyrm.Prelude.{◌≡◌, Bool, true, false, ◌&&◌, List, [], ◌∷◌, none, some, arith}
use glasswyrm.Wm.Transaction.{
  Transaction, begin_snapshot, abort_snapshot, Call, begins, ends, aborts, disconnects,
  puts_context, puts_output, puts_hint, puts_window, removes, commits, sets_hash, after,
}
use glasswyrm.Wm.Transaction.Bounds.{run, IsValid}

-- A call that neither closes the snapshot nor disconnects, nor sets the hash: a begin, which fails,
-- an upsert, a removal or a commit, which fail while a snapshot is open.
abbrev pub is_building : Call → Bool
is_building ends = false
is_building aborts = false
is_building disconnects = false
is_building (sets_hash hash) = false
is_building _ = true

abbrev pub all_building : List Call → Bool
all_building [] = true
all_building (c ∷ cs) = is_building c && all_building cs

-- What an open snapshot does not touch.
IsOver : Transaction → Transaction → Type 0
IsOver t u =
    (u.snapshot_active ≡ true)
    × (u.pre_snapshot ≡ some t.pending)
    × (u.committed_raw ≡ t.committed_raw)
    × (u.committed_policy ≡ t.committed_policy)

after-IsOver :
    (c : Call) (t u : Transaction) → is_building c ≡ true → IsOver t u → IsOver t (after c u)
unfolding after IsOver
after-IsOver begins t u h o = ground arith
after-IsOver ends t u h o = ground arith
after-IsOver aborts t u h o = ground arith
after-IsOver disconnects t u h o = ground arith
after-IsOver (puts_context context) t u h o = ground arith
after-IsOver (puts_output output) t u h o = ground arith
after-IsOver (puts_hint hint) t u h o = ground arith
after-IsOver (puts_window window) t u h o = ground arith
after-IsOver (removes window_id) t u h o = ground arith
after-IsOver (commits generation preflight) t u h o = ground arith
after-IsOver (sets_hash hash) t u h o = ground arith

run-IsOver :
    (cs : List Call) (t u : Transaction) → all_building cs ≡ true → IsOver t u → IsOver t (run cs u)
run-IsOver [] t u h o = o
run-IsOver (c ∷ cs) t u h o =
    run-IsOver cs t (after c u) (ground arith) (after-IsOver c t u (ground arith) o)

aborted :
    (t u : Transaction)
    → t.pre_snapshot ≡ none
    → t.snapshot_active ≡ false
    → IsOver t u
    → abort_snapshot u ≡ (t, true)
unfolding abort_snapshot IsOver
aborted t u h i o = ground arith

begun : (t : Transaction) → t.snapshot_active ≡ false → IsOver t (begin_snapshot t).0
unfolding begin_snapshot IsOver
begun t h = ground arith

-- In a valid state without an open snapshot, beginning one, building it with any calls but
-- end, abort, disconnect and the hash's, and aborting it, succeeds and restores the state exactly.
pub abort-run-begin :
    (t : Transaction) (cs : List Call)
    → IsValid t
    → t.snapshot_active ≡ false
    → all_building cs ≡ true
    → abort_snapshot (run cs (begin_snapshot t).0) ≡ (t, true)
abort-run-begin t cs v h b =
    aborted t (run cs (begin_snapshot t).0) (ground arith) h
      (run-IsOver cs t (begin_snapshot t).0 b (begun t h))
