-- ===== src/Examples.antt =====
-- Concrete states and inputs: tests of the definitions, and the theorems at inputs that meet their
-- hypotheses.
mod Blank
mod Vars
mod Blocks
mod Modbus
mod Master
mod Events
mod Names
mod Charts
mod Registers
mod Sections
mod Expressions
mod Programs
