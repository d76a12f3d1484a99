-- ===== src/Interp.antt =====
-- src/interp.rs: the interpreter.
pub mod Errors
pub mod Ops
pub mod Coerce
pub mod Methods
pub mod Frames
pub mod Eval
pub mod Bounds
pub mod Exec
pub mod Run
pub mod Relocate
pub mod Returns
pub mod Resolve
pub mod Params
pub mod Fold
pub mod Command
pub mod Rows
pub mod Write
pub mod Project
