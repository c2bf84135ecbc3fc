-- ===== src/Broker.antt =====
-- pipeline/task_broker.py
pub mod Admission
pub mod Atomic
pub mod Handoff
pub mod Lease
pub mod Lifecycle
pub mod Permissions
pub mod Refinement
pub mod Replay
pub mod Claims
pub mod Requests
pub mod Results
pub mod Review
pub mod Rows
pub mod Session
pub mod Tables
pub mod History
pub mod Sessions
pub mod Status
mod Examples
