-- ===== src/Ipc/Policy.antt =====
-- src/ipc/wire/policy_contract.hpp and policy_contract.cpp. An enum is its value; a bool is read from a
-- byte that may be 0 or 1.
mod Settings
mod Windows
mod Answers
pub mod RoundTrip
pub mod Validity
pub mod Examples
unfoldable pub use Settings.*
unfoldable pub use Windows.*
unfoldable pub use Answers.*
