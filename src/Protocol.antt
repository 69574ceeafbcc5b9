-- ===== src/Protocol.antt =====
-- src/protocol.rs: the codec of LDAP messages, without and with the `gssapi` feature.
pub mod Codec
pub mod RoundTrip
pub mod Gssapi
pub mod Sasl
