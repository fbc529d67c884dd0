-- ===== src/Worker.antt =====
-- crates/worker: the state of a worker, its message handlers, and the task that proves a job and
-- submits the proof.
pub mod State
pub mod Proof
pub mod Handler
pub mod Task
pub mod Start
pub mod Started
pub mod Success
pub mod Invariant
pub mod Finishing
pub mod Submission
pub mod Origin
