-- ===== src/Master.antt =====
-- src/protocol_modbus_master.c: the requests that the PLC polls its distributed inputs and outputs
-- with.
mod Config
mod Crc
mod Next
mod Access
mod Ask
mod Treat
mod Receive
pub mod Polynomial
pub mod Chosen
pub mod Read
pub mod Write
pub mod Serial
pub mod Errors
unfoldable pub use Config.*
unfoldable pub use Crc.*
unfoldable pub use Next.*
unfoldable pub use Access.*
unfoldable pub use Ask.*
unfoldable pub use Treat.*
unfoldable pub use Receive.*
