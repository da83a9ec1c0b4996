-- ===== src/Event.antt =====
-- src/log_events.c: the log of the events that variables start and end, and their alarms.
mod Types
mod Start
mod Create
mod Pending
mod Alarms
pub mod Keep
pub mod Finish
pub mod Defaults
pub mod Reached
unfoldable pub use Types.*
unfoldable pub use Start.*
unfoldable pub use Create.*
unfoldable pub use Pending.*
unfoldable pub use Alarms.*
