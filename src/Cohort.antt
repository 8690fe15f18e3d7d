-- ===== src/Cohort.antt =====
-- The binary format between src/mishegos/mishegos.c, which writes cohorts, and
-- src/mish2jsonl/mish2jsonl.c, which reads them.
pub mod Layout
pub mod RoundTrip
