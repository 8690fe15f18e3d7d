-- ===== src/Tests/Workers.antt =====
-- A worker that dies in one of two slots.
use mishegos.Base.{refl, false, replicate, ◌==◌, if◌then◌else◌, arith}
use mishegos.Slots.{InputSlot, OutputSlot}
use mishegos.Fuzzer.Worker.{Shared, Decoding, serve}
use mishegos.Fuzzer.Worker.Serve.{Goes, serve-Goes}
use mishegos.Tests.Inputs.{nop, dirty_slot}

-- It dies on inputs of more than one byte.
abbrev fragile : OutputSlot → InputSlot → Decoding
fragile o i =
    if i.len == 1
    then Decoding.returned (record o { status = 1; ndecoded = 1 })
    else Decoding.crashed o

abbrev two_slots : Shared
two_slots = record {
  input_chunks = λ j. record {
    generation = 1;
    remaining_workers = 3;
    input_count = 2;
    inputs = λ i. if i == 0 then dirty_slot else nop;
  };
  output_chunks = λ j. record {
    remaining = 0;
    outputs = λ i. record { status = 0; ndecoded = 5; len = 6; result = replicate 248 0 };
  };
  start_gen = 1;
  start_idx = 0;
  sigchld = false;
}

serve-Goes_example : Goes fragile two_slots 0 1 (serve fragile 3 1 0 two_slots)
serve-Goes_example =
    serve-Goes fragile two_slots 0 3 (omega arith) (omega arith) (omega arith) (omega arith)
      (omega arith) λ j. refl
