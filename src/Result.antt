-- ===== src/Result.antt =====
-- src/result.rs: operation results and errors.
pub mod Types
pub mod Convert
pub mod RoundTrip
pub mod Wrappers
