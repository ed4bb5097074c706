-- ===== src/Queue.antt =====
-- The durable job queue: services/jobs.py over repositories/jobs.py.
pub mod Backoff
pub mod Keys
pub mod KindSpec
pub mod Rows
pub mod Store
pub mod Lease
pub mod Retry
pub mod Effects
pub mod Rules
pub mod Service
pub mod Claims
pub mod Retries
pub mod Lifecycle
pub mod Events
pub mod Fencing
pub mod Samples
