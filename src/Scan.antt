-- ===== src/Scan.antt =====
-- src/calc.c: the scan cycle, from one rung to all the sections, and what prepares it.
mod Cell
mod Cycle
pub mod Charts
mod Prepare
unfoldable pub use Cell.*
unfoldable pub use Cycle.*
unfoldable pub use Prepare.*
