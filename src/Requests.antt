-- ===== src/Requests.antt =====
-- src/ldap.rs and src/exop_impl: the requests of the operations other than Search, and their calls.
pub mod Build
pub mod Numbers
pub mod Refused
pub mod Exops
pub mod Call
pub mod Binds
