-- ===== src/Compositor.antt =====
-- src/compositor: the damage of an output.
pub mod Rectangle
pub mod DamageRegion
pub mod Examples
