-- ===== src/Fuzzer.antt =====
-- src/mishegos/mishegos.c: the fuzzer's process.
pub mod Process
pub mod Worker
pub mod Fill
pub mod Loop
pub mod Options
pub mod Startup
pub mod Main
pub mod Crew
pub mod System
pub mod Futex
pub mod Spawn
