-- ===== src/Sim.antt =====
-- src/bin/naive_sim.rs: the reference simulator of the word-level macros.
pub mod Carry
pub mod Dsp
pub mod Srl
pub mod Macro
