-- ===== src/Witnesses.antt =====
-- The theorems at concrete inputs, with tests of the definitions.
mod Inputs
mod Walk
mod Settings
mod Backends
mod Generators
mod Complete
mod Whole
mod Block
