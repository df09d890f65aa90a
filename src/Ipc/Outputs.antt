-- ===== src/Ipc/Outputs.antt =====
-- src/ipc/wire/output_contract.hpp and output_contract.cpp: the payloads of a fixed size. An enum is
-- its value.
mod Modes
mod Commits
pub mod RoundTrip
unfoldable pub use Modes.*
unfoldable pub use Commits.*
