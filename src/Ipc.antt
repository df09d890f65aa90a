-- ===== src/Ipc.antt =====
-- src/ipc/wire: the record format of the inter-process protocol, in the children.
pub mod Bytes
pub mod Envelope
pub mod Fields
pub mod Session
pub mod Policy
pub mod Compositor
pub mod Lifecycle
pub mod Input
pub mod Outputs
