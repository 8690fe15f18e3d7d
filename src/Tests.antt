-- ===== src/Tests.antt =====
-- The theorems at concrete inputs, and runs of the code.
mod Inputs
mod Generators
mod Cohorts
mod Lines
mod Filling
mod Adapters
mod Workers
mod Looping
mod Starting
mod Crews
mod Systems
mod Processes
mod EarlyExit
