-- ===== src/Core.antt =====
-- crates/core: the types that the coordinator, the workers and the indexer share.
pub mod Ids
pub mod Job
pub mod Message
pub mod Envelope
pub mod SigBytes
