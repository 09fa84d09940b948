-- ===== src/Tests.antt =====
-- Concrete inputs, and runs of the theorems on them.
pub mod Data
pub mod Hub
pub mod Sorting
pub mod Injection
pub mod Reconfiguration
pub mod Committee
pub mod Money
pub mod ClientRuns
pub mod Beacons
pub mod Consensus
pub mod Signing
mod States
