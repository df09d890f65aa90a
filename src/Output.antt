-- ===== src/Output.antt =====
-- src/output/model/transform.cpp and src/output/model/scale.cpp, in the children.
pub mod Transform
pub mod Scale
mod Examples
