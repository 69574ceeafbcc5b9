-- ===== src/Util.antt =====
-- src/util.rs: escaping and unescaping, and the parameters of an LDAP URL.
pub mod Escape
pub mod Unescape
pub mod Flat
pub mod RoundTrip
pub mod Url
