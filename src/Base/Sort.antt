-- ===== src/Base/Sort.antt =====
-- `sort.SliceStable`, as a stable insertion sort by a `less` function, and orders built field by
-- field. The laws are asked only of the values that a predicate admits.
mod Defs
mod Laws
mod Lex
unfoldable pub use Defs.*
pub use Laws.*
pub use Lex.*
