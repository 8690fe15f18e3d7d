-- ===== src/Fuzzer/System/Start.antt =====
-- src/mishegos/mishegos.c: `main` and the workers before their first move.
use mishegos.Base.{ℕ, ◌+◌, ◌*◌, refl, Bool, true, false, arith}
use mishegos.Slots.{InputSlot, OutputSlot}
use mishegos.Fuzzer.Worker.{Decoding}
use mishegos.Fuzzer.Crew.Flags.{flags-quiet}
use mishegos.Fuzzer.Loop.{start_ring}
use mishegos.Fuzzer.System.{enter, start_system}
use mishegos.Fuzzer.System.Stamps.{jobs, dues-none}
use mishegos.Fuzzer.System.Fit.{Stands, Resting, rest-Standing}
use mishegos.Fuzzer.System.Round.{Round}
use mishegos.Fuzzer.System.Invariant.{Inv}

start-Round : Round (jobs start_ring.input_chunks) 1 0 16 0
start-Round = record {
  inside = omega arith;
  started = omega arith;
  small = omega arith;
  ahead = omega arith;
  near = omega arith;
  filling = λ _. refl;
  leaving = λ e. absurd (cc (e));
  stamps = λ j lt. (omega arith, omega arith);
  sizes = λ j. omega arith;
}

start-Stands :
    (try_decode : OutputSlot → InputSlot → Decoding) (pids : ℕ → ℕ) (loaded : ℕ → Bool) (i : ℕ)
    (b : Bool)
    → Stands try_decode
        (jobs start_ring.input_chunks)
        ((start_system pids loaded).crew.workers i)
        0
        (enter b 1 0)
unfolding Stands Resting enter start_system
start-Stands try_decode pids loaded i true =
    (refl, refl, rest-Standing try_decode _ _ 0 0 (omega arith) (λ j. refl))
start-Stands try_decode pids loaded i false = (refl, λ j. refl)

pub start-Inv :
    (try_decode : ℕ → OutputSlot → InputSlot → Decoding) (n : ℕ) (pids : ℕ → ℕ) (loaded : ℕ → Bool)
    → Inv try_decode n (start_system pids loaded)
unfolding start_system
start-Inv try_decode n pids loaded = record {
  round = start-Round;
  fits = λ i lt. record {
    stands = start-Stands (try_decode i) pids loaded i (loaded i);
    behind = λ j within from lt'. absurd (omega arith);
  };
  pace = λ i lt. (omega arith, omega arith);
  counts = λ j within.
      let none = flags-quiet (start_system pids loaded).crew.workers j 31 (λ k. refl) in
      let unpublished = dues-none (λ i. 0) (0 * 16 + j) n (λ i. omega arith) in
      rw (none, unpublished) refl;
  words = λ j. omega arith;
  unused = λ i past. refl;
}
