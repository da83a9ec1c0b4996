-- ===== src/Arithm.antt =====
-- src/arithm_eval.c: the evaluator of arithmetic expressions, comparisons and operations.
mod Machine
mod Lexeme
mod Function
mod Level
mod Compare
pub mod Within
mod Calls
pub mod Ends
pub mod Syntax
pub mod Decimal
pub mod Denotes
pub mod Reads
mod Plain
pub mod Compares
pub mod Assigns
pub mod Overruns
unfoldable pub use Machine.*
unfoldable pub use Lexeme.*
unfoldable pub use Function.*
unfoldable pub use Level.*
unfoldable pub use Compare.*
