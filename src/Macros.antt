-- ===== src/Macros.antt =====
-- src/macros.rs: the word-level macros CARRY4, DSP48E2 and SRLC32E.
pub mod Kind
pub mod Slots
pub mod Fanin
pub mod Inst
pub mod Encode
