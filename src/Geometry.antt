-- ===== src/Geometry.antt =====
-- src/core/geometry: rectangles and regions of them.
pub mod Rectangle
pub mod Merging
pub mod Region
pub mod Examples
