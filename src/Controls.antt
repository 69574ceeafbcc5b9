-- ===== src/Controls.antt =====
-- src/controls_impl.rs and src/controls_impl: request and response controls.
pub mod Types
pub mod Codec
pub mod RoundTrip
pub mod Value
pub mod Paged
pub mod Sync
pub mod Simple
pub mod Values
