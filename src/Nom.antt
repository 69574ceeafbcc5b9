-- ===== src/Nom.antt =====
-- The parser combinators of the `nom` crate, which the repository only calls: the BER parser
-- (lber/src/parse.rs) uses the streaming ones, the filter parser (src/filter.rs) the complete ones.
-- They are a parameter, a record of functions; a second record states what nom documents of them.
mod Laws
mod Concrete
pub mod Ascii
pub mod Yields
pub use Laws.*
pub use Concrete.{streaming-IsNomStreaming, complete-IsNomComplete}
unfoldable pub use Concrete.{streaming, complete, fold_run, many_run}
