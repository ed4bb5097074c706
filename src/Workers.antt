-- ===== src/Workers.antt =====
-- The processes around the queue: src/intel/workers/.
pub mod Scheduler
pub mod Runner
mod Slots
mod Zombie
mod Closing
mod Samples
