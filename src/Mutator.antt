-- ===== src/Mutator.antt =====
-- src/mishegos/mutator.c: the generators of fuzzing candidates.
pub mod Opcode
pub mod Candidate
pub mod Prefix
pub mod Havoc
pub mod Structured
pub mod Manual
pub mod Select
