-- ===== src/Services.antt =====
-- The services over the stores: src/intel/services/.
pub mod Evolution
pub mod Reviews
pub mod Timeline
