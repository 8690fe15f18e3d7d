-- ===== src/Mish2jsonl.antt =====
-- src/mish2jsonl/mish2jsonl.c: from the fuzzer's binary cohorts to JSON.
pub mod Hex
pub mod Read
pub mod Json
pub mod Print
pub mod Main
