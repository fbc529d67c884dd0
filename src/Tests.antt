-- ===== src/Tests.antt =====
-- Concrete inputs for the theorems: the external components, then each part at work.
mod Table
mod Runtime
mod Texts
mod Coordinator
mod Indexer
mod Worker
mod Tasks
mod Network
mod Node
mod Connection
mod Neighbour
mod Jobs
mod Start
mod Progress
mod Guest
mod Registry
