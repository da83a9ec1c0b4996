-- ===== src/State.antt =====
-- The data of src/classicladder.h, src/sequential.h and src/global.h that the PLC engine works on:
-- the structs of variables, rungs, function blocks, sections and sequential charts, and the global
-- arrays as one record. Strings that are only displayed are kept as texts.
mod Types
mod Globals
pub use Types.*
unfoldable pub use Globals.*
