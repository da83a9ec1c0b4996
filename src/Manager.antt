-- ===== src/Manager.antt =====
-- src/manager.c: the sections of a program, which the user adds, renames, swaps and deletes.
mod Search
mod Section
mod Found
pub mod Added
pub mod Own
pub mod Keep
pub mod Reached
pub mod Selected
unfoldable pub use Search.*
unfoldable pub use Section.*
