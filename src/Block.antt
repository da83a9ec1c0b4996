-- ===== src/Block.antt =====
-- src/calc.c: the function blocks (timers, monostables, counters, registers).
mod Sense
mod Timer
mod Monostable
mod Counter
mod TimerIec
mod Register
pub mod Count
mod Lifo
pub mod Stack
pub mod Overrun
pub mod Delay
pub mod Wiring
pub mod Pulse
pub mod TimerWiring
unfoldable pub use Sense.*
unfoldable pub use Timer.*
unfoldable pub use Monostable.*
unfoldable pub use Counter.*
unfoldable pub use TimerIec.*
unfoldable pub use Register.*
