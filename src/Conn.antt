-- ===== src/Conn.antt =====
-- src/conn.rs: opening a connection and its handler, and the message ids of src/ldap.rs.
pub mod MsgId
pub mod Fresh
pub mod Maps
pub mod Turn
pub mod World
pub mod Invariant
pub mod Ids
pub mod Routing
pub mod Overtaken
pub mod Loop
pub mod Establish
