-- ===== src/Server/Lifecycle/Rebase.antt =====
-- src/glasswyrmd/lifecycle_coordinator.cpp, rebase_lifecycle_operation: what an operation means on the
-- snapshot that is committed when its turn comes.
pub mod Windows
use glasswyrm.Prelude.{
  ℕ, Bool, true, false, not, ◌==◌, ◌!=◌, if◌then◌else◌, Option, none, some, is_some, List, [], ◌∷◌,
  ◌++◌, keep_if,
}
use glasswyrm.Prelude.Map
use glasswyrm.Prelude.Map.{NatMap}
use glasswyrm.Server.Lifecycle.{
  LifecycleWindow, LifecycleSnapshot, LifecycleOperation, LifecycleOperationKind,
}

-- The fields that a kind takes from the proposed window.
abbrev pub merged :
    LifecycleOperationKind → LifecycleWindow → LifecycleWindow → Option LifecycleWindow
merged LifecycleOperationKind.maps source target =
    some (record target { map_requested = source.map_requested; map_serial = source.map_serial })
merged LifecycleOperationKind.unmaps source target =
    some (record target { map_requested = source.map_requested; map_serial = source.map_serial })
merged LifecycleOperationKind.configure source target = some (record target {
  requested_x = source.requested_x;
  requested_y = source.requested_y;
  requested_width = source.requested_width;
  requested_height = source.requested_height;
  requested_border_width = source.requested_border_width;
  geometry_serial = source.geometry_serial;
  stack_serial = source.stack_serial;
  stack_sibling = source.stack_sibling;
  stack_mode = source.stack_mode;
})
merged LifecycleOperationKind.override_change source target =
    some (record target { override_redirect = source.override_redirect })
merged LifecycleOperationKind.policy_change source target = some (record source {
  applied_x = target.applied_x;
  applied_y = target.applied_y;
  applied_width = target.applied_width;
  applied_height = target.applied_height;
  stacking = target.stacking;
  policy_visible = target.policy_visible;
  focused = target.focused;
})
merged LifecycleOperationKind.scale_change source target =
    some (record target { scale = source.scale })
merged LifecycleOperationKind.focus source target =
    some (record target { focus_serial = source.focus_serial })
merged _ source target = none

-- A window that goes: out of the map and the order, and the focus back to the root.
abbrev pub drop_window : ℕ → LifecycleSnapshot → LifecycleSnapshot
drop_window id s = record s {
  windows = Map.erase id s.windows;
  root_order = keep_if (λ i. i != id) s.root_order;
  focused_window = (if s.focused_window == id then s.root_window else s.focused_window);
}

-- The loop of a client's cleanup, over the windows from the iterator on.
unfoldable pub cleanup :
    NatMap LifecycleWindow → NatMap LifecycleWindow → LifecycleSnapshot → LifecycleSnapshot
cleanup proposed [] s = s
cleanup proposed ((id, w) ∷ rest) s =
    cleanup proposed rest (if Map.contains id proposed then s else drop_window id s)

abbrev pub change :
    LifecycleSnapshot → LifecycleOperation → Option LifecycleWindow → Option LifecycleSnapshot
change committed operation none = none
change committed operation (some w) =
    some (record committed { windows = Map.insert operation.window w committed.windows })

abbrev pub merge_windows :
    LifecycleSnapshot
    → LifecycleOperation
    → Option LifecycleWindow
    → Option LifecycleWindow
    → Option LifecycleSnapshot
merge_windows committed operation (some source) (some target) =
    change committed operation (merged operation.kind source target)
merge_windows committed operation _ _ = none

abbrev pub created :
    LifecycleSnapshot
    → LifecycleOperation
    → Option LifecycleWindow
    → Bool
    → Option LifecycleSnapshot
created committed operation (some source) false = some (record committed {
  windows = Map.insert operation.window source committed.windows;
  root_order = committed.root_order ++ (operation.window ∷ []);
})
created committed operation _ _ = none

abbrev pub rebase_as :
    LifecycleOperationKind → LifecycleSnapshot → LifecycleOperation → Option LifecycleSnapshot
rebase_as LifecycleOperationKind.create committed operation =
    created committed operation (Map.find operation.window operation.proposed.windows)
      (Map.contains operation.window committed.windows)
rebase_as LifecycleOperationKind.destroy committed operation =
    if Map.contains operation.window committed.windows
    then some (drop_window operation.window committed)
    else none
rebase_as LifecycleOperationKind.client_cleanup committed operation =
    some (cleanup operation.proposed.windows committed.windows committed)
rebase_as _ committed operation =
    merge_windows committed operation (Map.find operation.window operation.proposed.windows)
      (Map.find operation.window committed.windows)

unfoldable pub rebase_lifecycle_operation :
    LifecycleSnapshot → LifecycleOperation → Option LifecycleSnapshot
unfolding cleanup
rebase_lifecycle_operation committed operation = rebase_as operation.kind committed operation
