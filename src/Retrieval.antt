-- ===== src/Retrieval.antt =====
-- Retrieval: src/intel/retrieval.
pub mod Recall
pub mod Chunker
mod Samples
