-- ===== src/Lifecycle.antt =====
-- helper/lifecycle.py: the phases of a remote session and its transition authority.
mod Tests
mod Phase
pub mod Authority
pub mod Steps
pub mod Invariant
pub mod Readiness
pub mod Progress
unfoldable pub use Phase.*
