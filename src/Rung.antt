-- ===== src/Rung.antt =====
-- src/calc.c: the elements of a rung, and how power flows through them.
mod Element
mod Left
mod Contact
pub mod Node
pub mod SubRoutine
pub mod Flow
unfoldable pub use Element.*
unfoldable pub use Left.*
unfoldable pub use Contact.*
