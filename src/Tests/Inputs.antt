-- ===== src/Tests/Inputs.antt =====
-- Concrete slots, workers and generator states.
use mishegos.Base.{ℕ, false, [], ◌∷◌, replicate}
use mishegos.Base.Int.{pos}
use mishegos.Slots.{InputSlot}
use mishegos.Xoroshiro.{RngState}
use mishegos.Mutator.Opcode.{Opcode}
use mishegos.Fuzzer.Process.{WorkerSlot, FilterConfig}
use mishegos.Mish2jsonl.Read.{WorkerOutput, CohortResults}

abbrev pub seed : RngState
seed = record { s0 = 1; s1 = 2; s2 = 3; s3 = 4 }

abbrev pub junk : Opcode
junk = record { len = 77; op = 1 ∷ 2 ∷ 3 ∷ 4 ∷ 5 ∷ [] }

abbrev pub dirty_slot : InputSlot
dirty_slot = record { len = 9; raw_insn = replicate 15 0xcc }

-- A slot that holds the one byte of a NOP.
abbrev pub nop : InputSlot
nop = record { len = 1; raw_insn = 0x90 ∷ replicate 14 0 }

-- A worker that decoded one byte, and printed "nop".
abbrev pub decoder : WorkerSlot
decoder = record {
  soname_len = 3;
  soname = b'a' ∷ b'.' ∷ b'o' ∷ [];
  output = record {
    status = 1;
    ndecoded = 1;
    len = 3;
    result = b'n' ∷ b'o' ∷ b'p' ∷ replicate 245 0;
  };
}

-- A worker that failed.
abbrev pub refuser : WorkerSlot
refuser = record {
  soname_len = 1;
  soname = b'b' ∷ [];
  output = record { status = 2; ndecoded = 0; len = 0; result = replicate 248 0 };
}

abbrev pub default_range : FilterConfig
default_range = record { min_success = pos 1; max_success = pos 31; ndecoded_same = false }

abbrev pub uncleared : ℕ → WorkerOutput
uncleared i = record {
  status = 0xdead;
  ndecoded = 7;
  workerno = 0xbeef;
  workerso = record { len = 0; string = [] };
  result = record { len = 0; string = [] };
}

abbrev pub no_results : CohortResults
no_results = record {
  nworkers = 0;
  input = record { len = 0; raw_insn = replicate 15 0 };
  outputs = [];
}
