-- ===== src/Lib.antt =====
-- Mishegos, a differential fuzzer for x86 decoders, as it stands in src/ of the repository.
--
-- The fuzzer (src/mishegos) fills slots with candidate instructions, hands them to decoder workers
-- through shared memory, and writes a binary cohort for each sample that its filter keeps;
-- mish2jsonl (src/mish2jsonl) reads the cohorts back and prints them.
--
-- The files:
--   Base and below          shared names, Boolean tests, lists, C's int, text and strcmp
--   Bits, Bits/Or           `^` and `|` on words, as arithmetic
--   Bytes                   the little-endian memory of an integer (x86-64 and AArch64)
--   Slots                   src/include/mish_common.h: limits, statuses, `input_slot`, `output_slot`
--   Gen and below           a state monad for code that draws random numbers and writes to buffers
--   Xoroshiro and below     mutator.c: `xoroshiro256_next`, `rand_long`, `rand_byte`
--   Getrandom               mutator.c: the same two where NO_XOROSHIRO_RNG is defined
--   Mutator and below       mutator.c: `rand_opcode`, `build_sliding_candidate`, and the generators
--   Mutator/Select          mutator.c: `mutator_create`, and the call of the generator that it chose
--   Fuzzer/Process          mishegos.c: `process`, `write_output`, the filter options
--   Fuzzer/Worker and below mishegos.c: `worker`, `sigchld_handler`, the restart of workers in `main`
--   Fuzzer/Fill and below   mishegos.c: the part of `main` that fills a chunk and goes on to the next
--   Fuzzer/Crew and below   mishegos.c: all workers, `worker_for_pid`, the handler and the restarts
--   Fuzzer/System and below mishegos.c: `main`, the workers and the handler as processes
--   Fuzzer/Futex and below  mishegos.c: `mish_atomic_wait_for`, `mish_atomic_notify`
--   Fuzzer/Spawn and below  mishegos.c: `worker_start`
--   Fuzzer/Loop and below   mishegos.c: the loop of `main` over many rounds
--   Fuzzer/Options          mishegos.c: the options of `main`, with strtol for the option -s
--   Fuzzer/Startup          mishegos.c: the file of workers
--   Fuzzer/Main and below   mishegos.c: `main` from its arguments to the end of its loop
--   Mish2jsonl/Read, Hex    mish2jsonl.c: `read_next` with its helpers, the hex digits of an input
--   Mish2jsonl/Json         mish2jsonl.c: `json_escape_string`, `m_cohort_print_json`
--   Mish2jsonl/Print        mish2jsonl.c: `m_print_results_jsonl`, `m_print_results_json`
--   Mish2jsonl/Main         mish2jsonl.c: `main`
--   Adapter and below       src/worker: the `try_decode` of each decoder adapter in C or C++
--   Cohort and below        the byte format between the two programs
--   Pipeline                a run of the fuzzer followed by one of mish2jsonl
--   Tests and below         the theorems at concrete inputs
--
-- Arrays are lists of bytes of the declared length. A read or write past the end of an array is
-- `none`, so a theorem that a generator returns says that it stays inside its buffers. Memory that
-- the code leaves uninitialised (`opc` in the generators, the entries from malloc in `read_next`) is
-- an argument of the definitions and arbitrary in the theorems. The generator of random numbers is
-- the interface `Rng` of Gen, which the built-in generator fills (Xoroshiro/Laws), and getrandom does
-- (Getrandom). `char` is signed. Writing to stdout and malloc are taken to succeed.
--
-- The printing loops run on fuel: one round for each cohort and one more reach the end of the file.
-- `serve` runs a worker through one chunk on fuel, one start of the worker for each slot and one more:
-- each restart goes on behind the slot of the crash. The loop of `main` runs for a number of rounds that
-- is an argument: 17 rounds, and one for each 4096 inputs, are enough for a generator that comes to an
-- end. The file of workers is read on fuel, one more than its characters. Arrays in shared memory are
-- functions of the index, and a decoder is a parameter that returns or dies.
--
-- The loop of `main` takes as an argument how its wait in each round comes out, restarts included: with
-- what the workers left, or never. The theorems that a run ends assume that every wait does, which
-- Fuzzer/System looks into: the race of an early exit and a shared object that is not loaded keep `main`
-- waiting for ever.
-- Fuzzer/Crew has the steps of the workers, the handler and the restarts while `main` fills no chunk, in
-- any order. Fuzzer/System has all the processes at once: where each worker is, the variables of `main`,
-- and what they share. A worker decodes a chunk and counts itself off in one move, and looks at the
-- chunk's size in another, since `main` can come in between; a report of waitpid, the restart of one
-- worker, and a round of `main` are one move each. How often a worker has ended a chunk and how many
-- chunks were handed over is counted beside the program's own variables. Generations stay below 2 ^ 32,
-- which is 2 ^ 48 samples. Fuzzer/Futex has the single accesses to memory of a wait and of a
-- notification, one after the other as on a machine without reordering, and Fuzzer/Spawn the steps of
-- parent and child around fork. getopt, sigaction, mmap, fopen, access, getrandom, waitpid, fork and
-- dlopen stand by what they give, which is an argument.
--
-- Not modelled: the symbols that dlsym looks up, the thread mode, the decoder libraries behind the
-- adapters (parameters of their `try_decode`) and the constructors that set them up, the adapters in
-- Rust, texts for the user, and the Ruby tools in src/analysis and src/mishmat.
-- src/worker/ghidra/sleighMishegos.cc is a copy of Ghidra's own code.
pub mod Base
pub mod Bits
pub mod Bytes
pub mod Slots
pub mod Gen
pub mod Getrandom
pub mod Xoroshiro
pub mod Mutator
pub mod Fuzzer
pub mod Mish2jsonl
pub mod Cohort
pub mod Pipeline
pub mod Tests
pub mod Adapter
