-- ===== src/Names.antt =====
-- src/vars_names.c, src/vars_names_list.c, src/symbols.c: the names of the variables.
mod Table
mod Search
mod Symbols
pub mod Access
unfoldable pub use Table.*
unfoldable pub use Search.*
unfoldable pub use Symbols.*
