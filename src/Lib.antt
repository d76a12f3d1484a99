-- ===== src/Lib.antt =====
-- A model of heklang, a language for event-sourced programs: the arithmetic, the types and the
-- values that its checker and its interpreter share, the expressions and statements of a checked
-- program with their evaluation, the inlining of bodies, the packed form that digests are made of,
-- the event log that folds read and that commands append to, and the read models of projectors.
--
-- The parts, and how they interact:
--
--   * Scaled (src/scaled.rs): integers of 64 bits with a decimal scale. Every operation that can
--     overflow computes at 64 or 128 bits and checks the range, and rounding works on a truncated
--     quotient. `i64` and `i128` are the integers with `in_range` written out at each check.
--   * Ir (src/ir.rs): the types of a checked program, with the seals and the subjects that the
--     runtime reads through, the operators, and how a written number resolves against a type.
--     Literals, Exprs and Program are the literals, the nodes and statements of a body, and the
--     declarations they look up. Shift (src/inline.rs) moves a body to other nodes and slots.
--   * Types (src/types.rs): the tables that the checker asks about operators, comparison and the
--     methods of a type.
--   * Value (src/value.rs): values, the type of a value, whether a value fits a type, and keys. Maps
--     has the entries of a `BTreeMap`, Render the JSON and the texts of a value, Calendar the fields
--     and the RFC 3339 text of a timestamp, Numbers literals and `parse_scaled`, and Zero the values
--     that the columns of a row start at, down to a depth of records that hold records.
--   * Interp (src/interp.rs): Ops has `unary` and `binary` on values, which call Scaled, `ordering`,
--     and `selected`, which is behind the methods `max` and `min`. Errors holds `ErrorKind`, Coerce
--     `coerce` and `fitted`, Methods `call_method` by the type of the receiver. Eval has `eval` on one
--     node (`eval_node`), Exec `exec_block` and `exec_stmt`, Bounds `check_field`, and Run ties the
--     knot with `enter_function`. Relocate puts the run of a moved body beside the run of the body.
--     Params binds arguments, Resolve has `resolve`, `matches` and `seal`, Fold has `fold`, `lookups`
--     and `folding`, which read the Log, and Command `execute`: the stages of an attempt, the `Carry`
--     that it hands the next, the append under the condition on what was read, and the attempts.
--     Rows has the seam of a store of rows, the rows in memory and their shredding, Write the
--     statements that put, patch and delete rows, and Project the projections: `query` and `apply`
--     over the records of a log, `project_into` and `project`. A store in memory is the list of its
--     rows, without the order of their keys, and what a failing run left in it is not kept.
--   * Lex (src/lex.rs): keywords, symbols, and the scanner of a symbol, on the text behind its first
--     character and the braces that are open in each interpolation.
--   * Digest (src/digest/sexp.rs): the packed s-expression and its reader. `Digest.Sexp.parse` calls
--     `read_value` with twice the length of the text and two units of fuel, one for each value and
--     each round of a list, and `read_string` with one for each character that is left.
--   * Log (src/host.rs, src/harness.rs, and `Event` and `Record` of src/value.rs): slices, queries
--     and append conditions, the log of the harness, and its key store. The visitor of a read is
--     passed its state along, and an error is a value of Interp.Errors. `gone` counts the levels of
--     wrapping that are left of the source's 64.
--   * Format (cli/src/fmt/doc.rs): documents, `render` and `fits`. The output is kept with its last
--     character first, and the loops have the fuel that the parts of a document give (`weight`).
--
-- Evaluation spends a unit of fuel on each node and on each function it enters, and answers `spent`
-- where the fuel runs out, which the source has nothing for; statements and loops are structural.
-- The fuel for a body is a unit for each of its nodes and `Returns.Enough.needed` for the functions
-- that it calls, over nodes that name earlier nodes and functions that do not call each other in a
-- circle: the parser pushes a node behind its operands, and `check_recursion` refuses such a circle.
-- A fold that looks others up folds them again in the log that it folds, at their depth, a unit for
-- each: `fold_with` and `decide` take what answers a lookup, and `fold` and `attempts` give them
-- `replay` of the log that they read; `attempts` takes the
-- number of attempts, which the source leaves to the callback `again`. What other writers append in
-- an attempt, between its reads and its append, is a parameter of `attempts`.
-- Frames are lists of slots, a body that runs without an effect context is evaluated with no `ctx`,
-- and an error is an `ErrorKind` without the span it is at. `to_lowercase`, `to_uppercase`,
-- `is_whitespace` and the crate `uuid` are the fields of a `Library`, which evaluation takes.
--
-- Base holds what they share: tests on natural numbers, lists, integers and texts. A text is the list
-- of its code points. Examples holds the theorems at concrete inputs.
--
-- A map of the source is the association list of its entries, where the earlier entry of a name
-- wins; a set is a list. Positions and the clock of the harness are natural numbers without a bound.
-- Of the state of the harness the log and the keys are modelled; scripted replies and secrets are not.
--
-- Not modelled: the drivers of effects and of derived tables (the rest of src/interp.rs), the rest of
-- the lexer, the parser and its checks (src/lex.rs, src/parse.rs), the splice of stages
-- (in src/inline.rs), constant tables (src/tables.rs), the test runner (src/testing.rs), the JSON
-- reader (in src/value.rs), the indented view of an s-expression, the printer of the formatter (cli/src/fmt/print.rs),
-- the entry points (cli, src/main.rs), which print and read files, and the generated editor grammar (tree-sitter-hek).
pub mod Base
pub mod Scaled
pub mod Ir
pub mod Types
pub mod Value
pub mod Interp
pub mod Digest
pub mod Lex
pub mod Log
pub mod Format
pub mod Examples
