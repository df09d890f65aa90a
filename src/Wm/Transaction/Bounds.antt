-- ===== src/Wm/Transaction/Bounds.antt =====
-- src/wm/transaction.cpp: the limits and the shape that every call keeps.
use glasswyrm.Prelude.{ℕ, ◌≤◌, ◌≡◌, List, [], ◌∷◌, Option, none, some, is_some, length, arith}
use glasswyrm.Prelude.Map.{
  NatMap, IsAscending, insert-IsAscending, erase-IsAscending, length-insert, length-erase-le,
}
use glasswyrm.Wm.Types.{RawState, maximum_outputs, maximum_windows}
use glasswyrm.Wm.Transaction.{
  Transaction, empty_transaction, Call, begins, ends, aborts, disconnects, puts_context,
  puts_output, puts_hint, puts_window, removes, commits, sets_hash, after,
}

abbrev pub IsBounded {ℓ} : {V : Type ℓ} → ℕ → NatMap V → Type 0
IsBounded maximum m = IsAscending m × (length m ≤ maximum)

-- The maps of a snapshot are maps, and within the limits.
pub record FitsLimits (raw : RawState) : Type 0 where
  pub few_outputs : IsBounded maximum_outputs raw.outputs
  pub few_hints : IsBounded maximum_windows raw.output_hints
  pub few_windows : IsBounded maximum_windows raw.windows

abbrev pub FitsIfAny : Option RawState → Type 0
FitsIfAny none = Unit {0}
FitsIfAny (some raw) = FitsLimits raw

-- A snapshot is open exactly while the one before is kept, and all snapshots are within the limits.
pub record IsValid (t : Transaction) : Type 0 where
  pub kept : t.snapshot_active ≡ is_some t.pre_snapshot
  pub pending_fits : FitsLimits t.pending
  pub committed_fits : FitsLimits t.committed_raw
  pub kept_fits : FitsIfAny t.pre_snapshot

-- One call keeps the limits.
after-IsValid : (c : Call) (t : Transaction) → IsValid t → IsValid (after c t)
unfolding after
after-IsValid begins t v = ground arith
after-IsValid ends t v = ground arith
after-IsValid aborts t v = ground arith
after-IsValid disconnects t v = ground arith
after-IsValid (puts_context context) t v = ground arith
after-IsValid (puts_output output) t v = ground (
  arith,
  length-insert output.output_id output t.pending.outputs,
  insert-IsAscending output.output_id output t.pending.outputs,
)
after-IsValid (puts_hint hint) t v = ground (
  arith,
  length-insert hint.window_id hint t.pending.output_hints,
  insert-IsAscending hint.window_id hint t.pending.output_hints,
)
after-IsValid (puts_window window) t v = ground (
  arith,
  length-insert window.window_id window t.pending.windows,
  insert-IsAscending window.window_id window t.pending.windows,
)
after-IsValid (removes window_id) t v = ground (
  arith,
  length-erase-le window_id t.pending.windows,
  length-erase-le window_id t.pending.output_hints,
  erase-IsAscending window_id t.pending.windows,
  erase-IsAscending window_id t.pending.output_hints,
)
after-IsValid (commits generation preflight) t v = ground arith
after-IsValid (sets_hash hash) t v = ground arith

abbrev pub run : List Call → Transaction → Transaction
run [] t = t
run (c ∷ cs) t = run cs (after c t)

empty-IsValid : IsValid empty_transaction
empty-IsValid = ground arith

run-IsValid_from : (cs : List Call) (t : Transaction) → IsValid t → IsValid (run cs t)
run-IsValid_from [] t v = v
run-IsValid_from (c ∷ cs) t v = run-IsValid_from cs (after c t) (after-IsValid c t v)

-- After any calls, from the empty state: a snapshot is open exactly while the one before it is kept,
-- the pending, the committed and the kept snapshot have at most 8 outputs, 4096 hints and 4096
-- windows, and their maps are in the order of their keys, none twice.
pub run-IsValid : (cs : List Call) → IsValid (run cs empty_transaction)
run-IsValid cs = run-IsValid_from cs empty_transaction empty-IsValid
