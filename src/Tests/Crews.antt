-- ===== src/Tests/Crews.antt =====
-- A crew of two workers, of which one dies.
use mishegos.Base.{ℕ, ◌+◌, false, ◌==◌, if◌then◌else◌, replicate}
use mishegos.Slots.{InputSlot, OutputSlot}
use mishegos.Fuzzer.Worker.{Shared, Decoding, WorkerStep, worker_step, sigchld_handler}
use mishegos.Fuzzer.Crew.{Crew, view, put}
use mishegos.Tests.Inputs.{nop}

abbrev pair : Crew
pair = record {
  input_chunks =
      λ j. record { generation = 1; remaining_workers = 2; input_count = 2; inputs = λ i. nop };
  workers = λ i. record {
    pid = 100 + i;
    output_chunks = λ j. record {
      remaining = 0;
      outputs = λ k. record { status = 0; ndecoded = 5; len = 6; result = replicate 248 0 };
    };
    start_gen = 1;
    start_idx = 0;
    sigchld = false;
  };
}

-- The worker at index 1 dies in every slot, the other in none.
abbrev one_dies : ℕ → OutputSlot → InputSlot → Decoding
one_dies i o slot = if i == 1 then Decoding.crashed o else Decoding.returned o

abbrev left_by : WorkerStep → Shared
left_by (WorkerStep.next gen idx s) = s
left_by (WorkerStep.exits s) = s
left_by (WorkerStep.dies s) = s
left_by WorkerStep.waits = view pair 0

abbrev after_death : Crew
after_death = put 1 101 (left_by (worker_step (one_dies 1) 1 0 (view pair 1))) pair

abbrev after_signal : Crew
after_signal = put 1 101 (sigchld_handler (view after_death 1)) after_death
