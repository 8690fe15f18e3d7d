-- ===== src/Tests/Processes.antt =====
-- Processes that start, wait for a variable, and cannot load their shared object.
use mishegos.Base.{
  ℕ, zero, suc, ◌≡◌, ◌≢◌, refl, Bool, true, false, some, [], ◌∷◌, ◌==◌, arith, replicate,
}
use mishegos.Fuzzer.Worker.{update}
use mishegos.Fuzzer.Crew.{Worker, worker_for_pid}
use mishegos.Fuzzer.Futex.{Waiter, WaitQueue, Accesses, wait_step}
use mishegos.Fuzzer.Futex.Wakeups.{Accesses-awake}
use mishegos.Fuzzer.Spawn.{Spawning, Parent, Child, worker_start, parent_step, child_step, Spawns}
use mishegos.Fuzzer.Spawn.Found.{Spawns-found}
use mishegos.Fuzzer.Crew.{restart_workers}
use mishegos.Fuzzer.Fill.{advance, publish, fill_slots, fill, fill_next}
use mishegos.Fuzzer.System.{System, chunk, enter, ring_of, start_system, Reaches}
use mishegos.Tests.Systems.{few_inputs, one_dies, pids, by_ring}
use mishegos.Fuzzer.System.Unloaded.{Reaches-unloaded}
use mishegos.Fuzzer.Loop.{ready}
use mishegos.Tests.Inputs.{decoder, refuser}

-- A process waits until the value 2 is 0.
abbrev impatient : WaitQueue
impatient = record {
  var = record { val = 2; waiters = 0 };
  waiting = λ k. Waiter.looks 0;
  targets = λ k. 0;
  notifying = 0;
}

-- The access of the process 0.
abbrev goes : WaitQueue → WaitQueue
goes s =
    let (w, a) = wait_step (s.targets 0) (s.waiting 0) s.var in
    record s { var = a; waiting = update s.waiting 0 w }

abbrev many : ℕ → WaitQueue → WaitQueue
many zero s = s
many (suc n) s = goes (many n s)

many-Accesses : (n : ℕ) (s : WaitQueue) → Accesses 1 s → Accesses 1 (many n s)
many-Accesses zero s reached = reached
many-Accesses (suc n) s reached = Accesses.waits 0 (many-Accesses n s reached) (omega arith)

abbrev sleeping : WaitQueue
sleeping = many 10003 impatient

sleeping-place : sleeping.waiting 0 ≡ Waiter.sleeps 2 10001
unfolding wait_step
sleeping-place = refl

Accesses-awake_example : sleeping.var.val ≢ sleeping.targets 0
Accesses-awake_example =
    Accesses-awake 1 sleeping 0 2 10001 (omega arith)
      (many-Accesses 10003 impatient (Accesses.begin 2 (λ k. 0) (omega arith))) refl (omega arith)
      sleeping-place

-- The worker at index 0 is started as the process 100, and dies in its loop.
abbrev idle : ℕ → Worker
idle k = record {
  pid = 0;
  output_chunks = λ j. record {
    remaining = 0;
    outputs = λ i. record { status = 0; ndecoded = 0; len = 0; result = replicate 248 0 };
  };
  start_gen = 1;
  start_idx = 0;
  sigchld = false;
}

abbrev spawned : Spawning
spawned = record {
  workers = update idle 0 (record (idle 0) { pid = 100 });
  parent = Parent.closes;
  child = Child.died;
  written = true;
}

spawned-steps : Spawns 0 100 idle spawned
unfolding worker_start parent_step child_step
spawned-steps =
    Spawns.child_goes
      (Spawns.child_goes (Spawns.parent_goes (Spawns.parent_goes (Spawns.begin refl))))

Spawns-found_example : worker_for_pid spawned.workers 100 ≡ some 0
Spawns-found_example =
    Spawns-found 0 100 idle spawned (omega arith) (λ k other. refl) spawned-steps refl

-- The shared object of the worker at index 1 is not loaded; `main` hands a chunk over.
abbrev first_loaded : ℕ → Bool
first_loaded i = i == 0

abbrev handed_out : System
handed_out =
    by_ring (start_system pids first_loaded)
      (fill_next few_inputs 2 (ring_of (start_system pids first_loaded)) 1)

handed_out-reached : Reaches one_dies few_inputs 2 pids first_loaded handed_out
unfolding start_system enter fill_next fill fill_slots advance publish restart_workers
handed_out-reached = Reaches.rounds pids 1 0 Reaches.begin refl refl refl (omega arith) refl

-- Its next chunk is the one at index 1, which mmap left empty.
handed_out-quiet :
    ((chunk handed_out handed_out.idx).remaining_workers ≡ 0)
    × ((restart_workers pids 2 0 handed_out.crew).0 ≡ false)
unfolding start_system enter fill_next fill fill_slots advance publish restart_workers
handed_out-quiet = (refl, refl)

Reaches-unloaded_example :
    (handed_out.gen ≡ 1) × (ready (ring_of handed_out) (λ j. decoder ∷ refuser ∷ []) ≡ [])
Reaches-unloaded_example =
    Reaches-unloaded one_dies few_inputs 2 pids first_loaded 1 handed_out pids
      (λ j. decoder ∷ refuser ∷ []) (omega arith) (omega arith) refl handed_out-reached
      handed_out-quiet.0 handed_out-quiet.1
