-- ===== src/Lib.antt =====
-- A model of the logic of ClassicLadder, a PLC that runs ladder rungs and sequential charts: src/*.c.
--
-- The state. The C code keeps its data in global arrays that every part reads and writes. The record
-- `Plc` (State/Globals, its parts in State/Types) holds them: an array is a function of the index, and
-- the sizes of the arrays are the record `Sizes`. A function that changes the arrays takes the state
-- and gives the new one back.
--
-- The parts and their files:
--   Common      shared helpers: Boolean tests, integers and machine words, function update, loops.
--   State       the structures of src/classicladder.h, src/sequential.h and the globals of src/global.h.
--   Vars        src/vars_access.c: ReadVar, WriteVar, SetVar, UnsetVar, InitVars. Every other part
--               reads and writes variables through them.
--   Rung        src/calc.c: the power that reaches a cell (StateOnLeft), contacts and coils.
--   Block       src/calc.c: timers, monostables, counters, IEC timers and registers. Each CalcType
--               function first reads its inputs off the rung, then steps, then publishes its outputs;
--               the step is a function of its own, `timer_step`, `counter_step` and so on.
--   Sequential  src/calc_sequential.c: RefreshSequentialPage, its transitions and steps.
--   Arithm      src/arithm_eval.c: EvalExpression, EvalCompare, MakeCalc and the two functions that
--               verify a syntax. Machine has the evaluator's state; Lexeme the constants and the
--               variables; Function the functions; Level the operators, Term and EvalExpression;
--               Compare the rest. Syntax has trees, their text and their meaning, a description of
--               what expressions mean that is independent of the evaluator; Decimal, Denotes, Plain,
--               Reads, Compares and Assigns compare the two; Within, Calls and Ends are about the end of an
--               evaluation. Comparisons and operations of a rung call EvalCompare and MakeCalc.
--   Scan        src/calc.c and src/manager.c: RefreshRung, RefreshASection and
--               ClassicLadder_RefreshAllSections, which drive all the parts above. Charts is about
--               the times of the steps when a program has several charts.
--   Manager     src/manager.c: the sections of a program, which the user adds, renames, selects, swaps and
--               deletes, on the state of Scan and what the windows keep of it. Own, Keep and Reached
--               are about the pages of the charts, Added about a new ladder, Found about the searches, Selected about deletions
--               and neighbours. The functions of src/edit.c and src/edit_sequential.c that these
--               operations call stand in Search and Section.
--   Modbus      src/protocol_modbus_slave.c: the response to a request, a frame being the list of
--               its bytes. Refuse, Words, Coils and Spared are about the requests that are refused, that
--               write words, and that read and force bits.
--   Master      src/protocol_modbus_master.c: the requests that the PLC itself polls its distributed
--               inputs and outputs with. Config has the tables and the settings, the record `Master`
--               being the globals of that file with the variables; Next chooses the request, Ask builds
--               the question (PrepPureModbusAskForCurrentReq, ModbusMasterAsk), Crc is CRC16, Access
--               reads and writes the variables, Treat and Receive take the answer
--               (TreatPureModbusResponse, TreatModbusMasterResponse). Polynomial is about the checksum,
--               Chosen about the next request, Read and Write about a master and a slave (Modbus) that
--               exchange words, Serial and Errors about answers that are refused or missing.
--   Event       src/log_events.c: the log of the events that memory bits start and end. Types has the log,
--               its settings and the globals (the record `Logger`); Start their initial values, Create
--               CreateEventLog and VarStateChanged, Pending the scans over the events, Alarms the flags of
--               the alarms. Keep, Reached, Finish and Defaults are about events that are not finished. WriteVar
--               (Vars) records the calls of VarStateChanged in the state, as the list `log_calls`.
--   Names       src/vars_names.c, src/vars_names_list.c and src/symbols.c: the table of the names of the
--               variables, the searches in it, and the symbols. Access is about the variables that may
--               be written, also as the targets of operations whose syntax is verified (Arithm).
--   Examples    concrete states, and the theorems at them.
--
-- Numbers. An `int` that the code adds to or takes off is an ℤ that `to_int` wraps to 32 bits; a `char`
-- that it stores is wrapped by `to_char`. Indices and sizes are ℕ where the code keeps them
-- non-negative, and ℤ where it reads them out of the data. The smallest `int` divided by -1, and the
-- remainder of that, are undefined in C and a trap on some processors; the model wraps the quotient, and
-- gives the remainder 0.
--
-- Loops. A `for` loop is `for_below`. RefreshASection follows the rungs of a section: it stops a section
-- after 99999 jumps, but nothing bounds a list of rungs that leads back to itself, so that the model
-- takes fuel and returns none where it runs out. The number that bounds the depth of sub-routines is
-- fuel too. The loop over the transitions of a page runs at most 50 times in the code, which the model
-- counts down. DelSection follows the rungs that it frees, also on fuel. StateOnLeft walks up and down a node by structural recursion.
--
-- Expressions. `Expr` is what it points to up to the end of the text, and none past the end: a read
-- there is `overrun`. An evaluation gets one unit of fuel more than its text has characters and an end.
-- Each term, and each round of a loop over operators or parameters, takes a character at least, so that
-- this is enough. The search of `:=` in MakeCalc takes its rounds as a parameter, since nothing bounds
-- it; a scan gives it as many as the text has characters, and none is the result of a scan in which it
-- does not end. A shift takes the low five bits of its count, as the processors do that the program is
-- built for. `atoi` is the one of the file, for texts without a sign or a space in front of the digits.
-- TestVarIsReadWrite (src/vars_names.c) is a parameter of MakeCalc; Names has it.
--
-- Frames. A frame that is received is a function of the place of the byte, since the code reads bytes
-- behind the length too; one that is sent is the list of its bytes. The search of a request makes at most
-- 21 rounds, as in the code, and the search of the slave's number on a serial line as many as the frame
-- has bytes. In the Modbus master the sums of the offsets of variables are exact.
--
-- Events. The log has 100 slots and the search for one makes at most 100 rounds, as in the code; a scan
-- over the events makes as many rounds as there are events, one at least, since its loops are do-while
-- loops. The time is a parameter, and the mutex that guards the log is left out. A copy of the log is
-- always given its memory.
--
-- Not modelled. The parser and the printer of names of variables, and the editor. Files, sockets, serial lines, devices, threads and the graphical
-- interface are input and output.
--
-- The comment above each theorem says what it states.
pub mod Common
pub mod State
pub mod Vars
pub mod Rung
pub mod Block
pub mod Sequential
pub mod Arithm
pub mod Scan
pub mod Modbus
pub mod Master
pub mod Event
pub mod Names
pub mod Manager
mod Examples
