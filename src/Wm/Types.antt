-- ===== src/Wm/Types.antt =====
-- src/wm/types.hpp. An enum that is read from the wire has a constructor `other` for the values that
-- its underlying type has and the enum does not name. Coordinates are int32_t, held as ℤ.
use glasswyrm.Prelude.{ℕ, Bool, false, List, []}
use glasswyrm.Prelude.Int.{ℤ, pos, negsuc}
use glasswyrm.Prelude.Map.{NatMap}

abbrev pub maximum_windows : ℕ
maximum_windows = 4096

abbrev pub maximum_outputs : ℕ
maximum_outputs = 8

abbrev pub maximum_work_extent : ℕ
maximum_work_extent = 16384

abbrev pub maximum_root_extent : ℕ
maximum_root_extent = 32767

abbrev pub maximum_window_extent : ℕ
maximum_window_extent = 16384

abbrev pub maximum_border_width : ℕ
maximum_border_width = 65535

pub data WindowType : Type 0 where
  unknown normal dialog utility : WindowType
  other : ℕ → WindowType

pub data DecorationPreference : Type 0 where
  unknown undecorated decorated : DecorationPreference
  other : ℕ → DecorationPreference

pub data AppliedState : Type 0 where
  normal maximized fullscreen minimized : AppliedState

pub data TriState : Type 0 where
  unknown refused granted : TriState

pub data StackMode : Type 0 where
  unset above below : StackMode
  other : ℕ → StackMode

-- The value of the enum; 0 to 7 are named.
abbrev pub OutputTransform : Type 0
OutputTransform = ℕ

pub data EvaluationError : Type 0 where
  nothing incomplete_snapshot invalid_context invalid_window : EvaluationError
  unknown_reference limit unsupported_metadata output_failure : EvaluationError

pub record Context : Type 0 where
  pub root_window_id : ℕ
  pub workspace_id : ℕ
  pub output_id : ℕ
  pub work_x : ℤ
  pub work_y : ℤ
  pub work_width : ℕ
  pub work_height : ℕ
  pub flags : ℕ

pub record Rectangle : Type 0 where
  pub x : ℤ
  pub y : ℤ
  pub width : ℕ
  pub height : ℕ

pub record OutputContext : Type 0 where
  pub output_id : ℕ
  pub logical : Rectangle
  pub work : Rectangle
  pub scale_numerator : ℕ
  pub scale_denominator : ℕ
  pub transform : OutputTransform
  pub enabled : Bool
  pub primary : Bool
  pub flags : ℕ

pub record WindowOutputHint : Type 0 where
  pub window_id : ℕ
  pub previous_output_id : ℕ
  pub preferred_output_id : ℕ
  pub flags : ℕ

pub record RawWindow : Type 0 where
  pub window_id : ℕ
  pub parent_window_id : ℕ
  pub transient_for : ℕ
  pub workspace_id : ℕ
  pub requested_x : ℤ
  pub requested_y : ℤ
  pub requested_width : ℕ
  pub requested_height : ℕ
  pub border_width : ℕ
  pub window_type : WindowType
  pub wants_map : Bool
  pub override_redirect : Bool
  pub decoration_preference : DecorationPreference
  pub fullscreen_requested : Bool
  pub maximized_requested : Bool
  pub minimized_requested : Bool
  pub attention_requested : Bool
  pub creation_serial : ℕ
  pub map_serial : ℕ
  pub focus_serial : ℕ
  pub flags : ℕ
  pub geometry_serial : ℕ
  pub stack_serial : ℕ
  pub stack_sibling : ℕ
  pub stack_mode : StackMode

pub record RawState : Type 0 where
  pub complete : Bool
  pub producer_generation : ℕ
  pub context : Context
  pub has_context : Bool
  pub outputs : NatMap OutputContext
  pub output_hints : NatMap WindowOutputHint
  pub windows : NatMap RawWindow

pub record WindowState : Type 0 where
  pub window_id : ℕ
  pub transient_for : ℕ
  pub workspace_id : ℕ
  pub output_id : ℕ
  pub final_x : ℤ
  pub final_y : ℤ
  pub final_width : ℕ
  pub final_height : ℕ
  pub stacking : ℤ
  pub window_type : WindowType
  pub applied_state : AppliedState
  pub visible : Bool
  pub focused : Bool
  pub managed : Bool
  pub decoration_eligible : Bool
  pub override_redirect : Bool
  pub attention_requested : Bool
  pub fullscreen_eligible : TriState
  pub direct_scanout_eligible : TriState

pub record PolicyState : Type 0 where
  pub generation : ℕ
  pub hash : ℕ
  pub context : Context
  pub outputs : NatMap OutputContext
  pub output_hints : NatMap WindowOutputHint
  pub windows : NatMap WindowState
  pub output_order : List ℕ

pub record Evaluation : Type 0 where
  pub error : EvaluationError
  pub policy : PolicyState

-- The default member initialisers.
abbrev pub no_context : Context
no_context = record {
  root_window_id = 0;
  workspace_id = 0;
  output_id = 0;
  work_x = pos 0;
  work_y = pos 0;
  work_width = 0;
  work_height = 0;
  flags = 0;
}

abbrev pub empty_raw : RawState
empty_raw = record {
  complete = false;
  producer_generation = 0;
  context = no_context;
  has_context = false;
  outputs = [];
  output_hints = [];
  windows = [];
}

abbrev pub empty_policy : PolicyState
empty_policy = record {
  generation = 0;
  hash = 0;
  context = no_context;
  outputs = [];
  output_hints = [];
  windows = [];
  output_order = [];
}

abbrev pub empty_state : WindowState
empty_state = record {
  window_id = 0;
  transient_for = 0;
  workspace_id = 0;
  output_id = 0;
  final_x = pos 0;
  final_y = pos 0;
  final_width = 0;
  final_height = 0;
  stacking = negsuc 0;
  window_type = WindowType.unknown;
  applied_state = AppliedState.normal;
  visible = false;
  focused = false;
  managed = false;
  decoration_eligible = false;
  override_redirect = false;
  attention_requested = false;
  fullscreen_eligible = TriState.refused;
  direct_scanout_eligible = TriState.unknown;
}

abbrev pub empty_hint : WindowOutputHint
empty_hint = record { window_id = 0; previous_output_id = 0; preferred_output_id = 0; flags = 0 }
