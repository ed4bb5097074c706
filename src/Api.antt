-- ===== src/Api.antt =====
-- The HTTP layer: src/intel/api.
pub mod Pages
pub mod Replay
pub mod Stream
mod Samples
