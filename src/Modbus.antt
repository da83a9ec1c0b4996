-- ===== src/Modbus.antt =====
-- src/protocol_modbus_slave.c: the answers to the requests of a Modbus master.
mod Access
mod Frame
mod Respond
pub mod Refuse
pub mod Coils
pub mod Words
pub mod Spared
unfoldable pub use Access.*
unfoldable pub use Frame.*
unfoldable pub use Respond.*
