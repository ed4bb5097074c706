-- ===== src/Sources.antt =====
-- What fetching from the network goes through: src/intel/sources/.
pub mod Guard
