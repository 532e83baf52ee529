-- ===== src/Iterate/Safety.antt =====
-- No pass of src/iterate.c dies, and every pass keeps its entry well formed.
pub mod Invariant
pub mod Rules
pub mod Diagram
pub mod Outcome
pub mod Shapes
pub mod Requests
pub mod Keys
pub mod Saving
pub mod CaSaving
pub mod Notifying
pub mod Added
pub mod Monitoring
pub mod Submission
pub mod Passes
pub mod Lifecycle
pub mod System
pub mod Daemon
pub mod Storage
pub mod Renewal
pub mod Waiting
pub mod Adoption
