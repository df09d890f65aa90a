-- ===== src/Wm/Interaction/State.antt =====
-- src/wm/interactive_policy.hpp: the types and the state.
use glasswyrm.Prelude.{ℕ, Bool, true, false, ◌&&◌, Option, none}
use glasswyrm.Prelude.Int.{ℤ, pos, eqb_ℤ}

pub record InteractiveBindings : Type 0 where
  pub move_modifiers : ℕ
  pub resize_modifiers : ℕ
  pub close_modifiers : ℕ
  pub move_button : ℕ
  pub resize_button : ℕ
  pub close_keysym : ℕ
  pub minimum_width : ℕ
  pub minimum_height : ℕ
  pub raise_on_focus : Bool
  pub consume_wm_bindings : Bool

abbrev pub default_bindings : InteractiveBindings
default_bindings = record {
  move_modifiers = 8;
  resize_modifiers = 8;
  close_modifiers = 8;
  move_button = 1;
  resize_button = 3;
  close_keysym = 65473;
  minimum_width = 96;
  minimum_height = 64;
  raise_on_focus = true;
  consume_wm_bindings = true;
}

pub data InteractionKind : Type 0 where
  idle move resize_bottom_right : InteractionKind

pub data InteractionCursor : Type 0 where
  unchanged fleur_move bottom_right_resize : InteractionCursor

pub record PointerPosition : Type 0 where
  pub x : ℤ
  pub y : ℤ

pub record InteractiveGeometry : Type 0 where
  pub x : ℤ
  pub y : ℤ
  pub width : ℕ
  pub height : ℕ

pub record InteractionBegin : Type 0 where
  pub kind : InteractionKind
  pub target : ℕ
  pub button : ℕ
  pub pointer : PointerPosition
  pub applied_geometry : InteractiveGeometry
  pub managed : Bool
  pub visible : Bool
  pub direct_root : Bool
  pub input_output : Bool

pub record InteractionBeginResult : Type 0 where
  pub accepted : Bool
  pub consume_event : Bool
  pub focus : Bool
  pub raise : Bool
  pub cursor : InteractionCursor

abbrev pub not_accepted : InteractionBeginResult
not_accepted = record {
  accepted = false;
  consume_event = false;
  focus = false;
  raise = false;
  cursor = InteractionCursor.unchanged;
}

pub record InteractivePolicy : Type 0 where
  pub bindings : InteractiveBindings
  pub kind : InteractionKind
  pub cursor : InteractionCursor
  pub target : ℕ
  pub button : ℕ
  pub initial_pointer : PointerPosition
  pub latest_pointer : PointerPosition
  pub dispatched_pointer : Option PointerPosition
  pub initial_geometry : InteractiveGeometry
  pub last_committed : InteractiveGeometry
  pub transaction_in_flight : Bool
  pub ending : Bool
  pub cursor_published : Bool

abbrev pub is_idle : InteractionKind → Bool
is_idle InteractionKind.idle = true
is_idle InteractionKind.move = false
is_idle InteractionKind.resize_bottom_right = false

abbrev pub same_pointer : PointerPosition → PointerPosition → Bool
same_pointer p q = eqb_ℤ p.x q.x && eqb_ℤ p.y q.y

-- The constructor.
abbrev pub new_interaction : InteractiveBindings → InteractivePolicy
new_interaction bindings = record {
  bindings = bindings;
  kind = InteractionKind.idle;
  cursor = InteractionCursor.unchanged;
  target = 0;
  button = 0;
  initial_pointer = record { x = pos 0; y = pos 0 };
  latest_pointer = record { x = pos 0; y = pos 0 };
  dispatched_pointer = none;
  initial_geometry = record { x = pos 0; y = pos 0; width = 0; height = 0 };
  last_committed = record { x = pos 0; y = pos 0; width = 0; height = 0 };
  transaction_in_flight = false;
  ending = false;
  cursor_published = false;
}
