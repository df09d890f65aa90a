-- ===== src/Server/Lifecycle/Rebase/Windows.antt =====
-- src/glasswyrmd/lifecycle_coordinator.cpp, rebase_lifecycle_operation: what a rebase does to the other
-- windows.
use glasswyrm.Prelude.{
  ℕ, ◌≡◌, refl, Bool, true, false, not, ◌&&◌, ◌==◌, if◌then◌else◌, Option, none, some, Bool-cases,
  inl, inr, [], ◌∷◌, arith,
}
use glasswyrm.Prelude.Map
use glasswyrm.Prelude.Map.{NatMap, find-insert, find-erase}
use glasswyrm.Server.Lifecycle.{
  LifecycleWindow, LifecycleSnapshot, LifecycleOperation, LifecycleOperationKind,
}
use glasswyrm.Server.Lifecycle.Rebase.{
  rebase_lifecycle_operation, rebase_as, change, merge_windows, created, cleanup, merged,
  drop_window,
}

abbrev pub is_cleanup : LifecycleOperationKind → Bool
is_cleanup LifecycleOperationKind.client_cleanup = true
is_cleanup _ = false

module _ (committed : LifecycleSnapshot) (operation : LifecycleOperation) (r : LifecycleSnapshot)
    (j : ℕ) (other : (operation.window == j) ≡ false) where
  inserted_others :
      (w : LifecycleWindow)
      → Map.find j (Map.insert operation.window w committed.windows) ≡ Map.find j committed.windows
  inserted_others w = ground (arith, find-insert operation.window j w committed.windows)

  change_others :
      (w : Option LifecycleWindow)
      → change committed operation w ≡ some r
      → Map.find j r.windows ≡ Map.find j committed.windows
  change_others none e = ground arith
  change_others (some w) e = ground (arith, inserted_others w)

  merge_others :
      (source target : Option LifecycleWindow)
      → merge_windows committed operation source target ≡ some r
      → Map.find j r.windows ≡ Map.find j committed.windows
  merge_others none target e = ground arith
  merge_others (some w) none e = ground arith
  merge_others (some w) (some v) e = change_others (merged operation.kind w v) e

  created_others :
      (source : Option LifecycleWindow) (exists : Bool)
      → created committed operation source exists ≡ some r
      → Map.find j r.windows ≡ Map.find j committed.windows
  created_others none exists e = ground arith
  created_others (some w) true e = ground arith
  created_others (some w) false e = ground (arith, inserted_others w)

  rebase_as_others :
      (kind : LifecycleOperationKind)
      → is_cleanup kind ≡ false
      → rebase_as kind committed operation ≡ some r
      → Map.find j r.windows ≡ Map.find j committed.windows
  rebase_as_others kind k e = ground (
    arith,
    created_others (Map.find operation.window operation.proposed.windows)
        (Map.contains operation.window committed.windows),
    merge_others (Map.find operation.window operation.proposed.windows)
        (Map.find operation.window committed.windows),
    find-erase operation.window j committed.windows,
  )

-- A rebase that succeeds, of any kind but a cleanup, keeps each window but the operation's own
-- as it is committed.
rebase_keeps_others :
    (committed : LifecycleSnapshot) (operation : LifecycleOperation) (r : LifecycleSnapshot) (j : ℕ)
    → is_cleanup operation.kind ≡ false
    → (operation.window == j) ≡ false
    → rebase_lifecycle_operation committed operation ≡ some r
    → Map.find j r.windows ≡ Map.find j committed.windows
unfolding rebase_lifecycle_operation
rebase_keeps_others committed operation r j k n e =
    rebase_as_others committed operation r j n operation.kind k e

find-cleanup :
    (proposed rest : NatMap LifecycleWindow) (s : LifecycleSnapshot) (j : ℕ)
    → Map.find j (cleanup proposed rest s).windows ≡ (
        if Map.contains j rest && not (Map.contains j proposed) then none else Map.find j s.windows)
unfolding cleanup Map.find
find-cleanup proposed [] s j = refl
find-cleanup proposed ((id, w) ∷ rest) s j = elim (Bool-cases (Map.contains id proposed)) [
  | inl e ↦ ground (arith, find-cleanup proposed rest s j)
  | inr e ↦
      ground (arith, find-cleanup proposed rest (drop_window id s) j, find-erase id j s.windows)
]

-- A rebase of a client's cleanup always succeeds: the windows that the operation proposes too stay as
-- they are committed, the others go.
pub rebase_cleanup :
    (committed : LifecycleSnapshot) (operation : LifecycleOperation)
    → operation.kind ≡ LifecycleOperationKind.client_cleanup
    → (r : LifecycleSnapshot) × (rebase_lifecycle_operation committed operation ≡ some r)
      × ((j : ℕ)
          → Map.find j r.windows ≡ (
              if Map.contains j operation.proposed.windows
              then Map.find j committed.windows
              else none))
unfolding rebase_lifecycle_operation
rebase_cleanup committed operation k = (
  cleanup operation.proposed.windows committed.windows committed,
  ground arith,
  λ j. ground (arith, find-cleanup operation.proposed.windows committed.windows committed j),
)
