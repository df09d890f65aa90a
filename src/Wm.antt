-- ===== src/Wm.antt =====
-- src/wm: the window manager's policy. The children follow its files.
pub mod Types
pub mod Lookup
pub mod Placement
pub mod Outputs
pub mod MultiOutput
pub mod Focus
pub mod Ordering
pub mod Hash
pub mod Validation
pub mod Engine
pub mod Transaction
pub mod Interaction
