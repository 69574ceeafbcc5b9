-- ===== src/Search.antt =====
-- src/search.rs and src/adapters.rs: searches, their streams and the adapters of a stream.
pub mod Stream
pub mod Drain
pub mod Request
pub mod State
pub mod Adapters
pub mod Chain
pub mod Entries
pub mod Pages
pub mod Paging
pub mod Results
pub mod Transparent
pub mod Construct
pub mod Attributes
