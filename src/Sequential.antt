-- ===== src/Sequential.antt =====
-- src/calc_sequential.c: the sequential charts (Grafcet), and how their steps become variables.
mod Init
mod Refresh
pub mod Fire
pub mod Time
unfoldable pub use Init.*
unfoldable pub use Refresh.*
