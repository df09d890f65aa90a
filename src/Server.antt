-- ===== src/Server.antt =====
-- src/glasswyrmd: the stores of the protocol server, in the children.
pub mod AtomTable
pub mod SelectionStore
pub mod Lifecycle
pub mod XfixesRegion
pub mod GrabState
pub mod PropertyStore
