-- ===== src/Filter.antt =====
-- src/filter.rs: the parser of search filters.
pub mod Unescaper
pub mod Lexical
pub mod Items
pub mod Grammar
pub mod Literal
pub mod Names
pub mod Equality
pub mod Shape
pub mod Sound
