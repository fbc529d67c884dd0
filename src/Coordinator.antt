-- ===== src/Coordinator.antt =====
-- crates/coordinator: the job table, claim arbitration, the API, persistence and re-broadcasting.
pub mod State
pub mod Handler
pub mod Api
pub mod Rebroadcast
pub mod Persistence
pub mod Snapshot
pub mod Keyed
pub mod Sound
pub mod Truth
pub mod Lookup
pub mod Lifecycle
pub mod Claims
pub mod Completion
pub mod Creation
pub mod Publishing
pub mod Created
pub mod System
pub mod Tasks
pub mod Start
pub mod Arbitration
pub mod Finality
pub mod Announcing
