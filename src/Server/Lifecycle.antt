-- ===== src/Server/Lifecycle.antt =====
-- src/glasswyrmd/lifecycle_types.hpp, the types of window.hpp that it uses, and the operations of
-- lifecycle_coordinator.hpp. Coordinates are int32_t, held as ℤ.
pub mod Rebase
pub mod Coordinator
mod Examples
use glasswyrm.Prelude.{ℕ, Bool, true, false, List, [], Option, none}
use glasswyrm.Prelude.Int.{ℤ}
use glasswyrm.Prelude.Map.{NatMap}

pub data WindowClass : Type 0 where
  copy_from_parent input_output input_only : WindowClass

pub data LifecycleStackMode : Type 0 where
  unset above below : LifecycleStackMode

pub data PolicyWindowType : Type 0 where
  unknown normal dialog utility : PolicyWindowType

pub data PolicyDecoration : Type 0 where
  unknown refused granted : PolicyDecoration

pub data WindowScalePresentationState : Type 0 where
  legacy scale_aware_awaiting_pixmap scale_aware_active : WindowScalePresentationState

-- `scaled_pixmap_storage` is a pointer: the number of the storage that it shares.
pub record WindowScaleState : Type 0 where
  pub primary_output : ℕ
  pub preferred_scale_numerator : ℕ
  pub preferred_scale_denominator : ℕ
  pub accepted_buffer_scale : ℕ
  pub layout_generation : ℕ
  pub output_memberships : List ℕ
  pub has_output_state : Bool
  pub presentation : WindowScalePresentationState
  pub scaled_pixmap_storage : Option ℕ
  pub presentation_serial : ℕ
  pub event_selections : NatMap ℕ

pub record SavedWindowGeometry : Type 0 where
  pub x : ℤ
  pub y : ℤ
  pub width : ℕ
  pub height : ℕ
  pub border_width : ℕ

pub record LifecycleWindow : Type 0 where
  pub xid : ℕ
  pub parent : ℕ
  pub window_class : WindowClass
  pub requested_x : ℤ
  pub requested_y : ℤ
  pub requested_width : ℕ
  pub requested_height : ℕ
  pub requested_border_width : ℕ
  pub override_redirect : Bool
  pub map_requested : Bool
  pub policy_visible : Bool
  pub focused : Bool
  pub creation_serial : ℕ
  pub map_serial : ℕ
  pub focus_serial : ℕ
  pub geometry_serial : ℕ
  pub stack_serial : ℕ
  pub stack_sibling : ℕ
  pub stack_mode : LifecycleStackMode
  pub transient_for : ℕ
  pub policy_window_type : PolicyWindowType
  pub decoration_preference : PolicyDecoration
  pub fullscreen_requested : Bool
  pub maximized_requested : Bool
  pub above_requested : Bool
  pub bypass_compositor : Bool
  pub attention_requested : Bool
  pub input_requested : Bool
  pub minimum_width : ℕ
  pub minimum_height : ℕ
  pub maximum_width : ℕ
  pub maximum_height : ℕ
  pub saved_normal_geometry : Option SavedWindowGeometry
  pub applied_x : ℤ
  pub applied_y : ℤ
  pub stacking : ℤ
  pub applied_width : ℕ
  pub applied_height : ℕ
  pub window_type : ℕ
  pub applied_state : ℕ
  pub managed : Bool
  pub decoration_eligible : Bool
  pub fullscreen_eligible : ℕ
  pub direct_scanout_eligible : ℕ
  pub assigned_output_id : ℕ
  pub output_memberships : List ℕ
  pub scale : WindowScaleState

pub record LifecycleSnapshot : Type 0 where
  pub windows : NatMap LifecycleWindow
  pub root_order : List ℕ
  pub focused_window : ℕ
  pub root_window : ℕ
  pub workspace_id : ℕ
  pub output_id : ℕ

-- The default member initialisers.
abbrev pub empty_snapshot : LifecycleSnapshot
empty_snapshot = record {
  windows = [];
  root_order = [];
  focused_window = 0;
  root_window = 1;
  workspace_id = 1;
  output_id = 1;
}

pub data LifecycleOperationKind : Type 0 where
  create maps unmaps configure destroy override_change : LifecycleOperationKind
  policy_change scale_change focus client_cleanup : LifecycleOperationKind

pub record LifecycleOperation : Type 0 where
  pub token : ℕ
  pub client_id : ℕ
  pub request_sequence : ℕ
  pub kind : LifecycleOperationKind
  pub window : ℕ
  pub proposed : LifecycleSnapshot
  pub canceled : Bool

pub data CoordinatorPhase : Type 0 where
  idle awaiting_policy awaiting_compositor : CoordinatorPhase
  rolling_back_policy rolling_back_compositor waiting_for_peer stopped : CoordinatorPhase

pub data EnqueueStatus : Type 0 where
  queued full stopped : EnqueueStatus
