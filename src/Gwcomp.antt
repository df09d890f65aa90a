-- ===== src/Gwcomp.antt =====
-- src/gwcomp: the process of the compositor.
pub mod SessionState
pub mod Examples
