-- ===== src/Examples.antt =====
-- The theorems at concrete inputs, and tests of the definitions.
mod Numbers
mod Typing
mod Storage
mod Runs
mod Layout
mod Commands
mod Projections
