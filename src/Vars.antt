-- ===== src/Vars.antt =====
-- src/vars_access.c: the variables of the PLC, and the inputs and outputs that are forced ("set").
mod Read
mod Write
mod Init
pub mod RoundTrip
pub mod Forced
unfoldable pub use Read.*
unfoldable pub use Write.*
unfoldable pub use Init.*
