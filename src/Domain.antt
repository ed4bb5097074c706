-- ===== src/Domain.antt =====
-- The rules of src/intel/domain: what counts as evidence and which events are one.
pub mod Times
pub mod Urls
pub mod Quotes
pub mod Validation
pub mod Identity
mod Samples
