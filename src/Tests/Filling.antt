-- ===== src/Tests/Filling.antt =====
-- A chunk filled by a mutator that gives up after three candidates.
use mishegos.Base.{ℕ, ◌+◌, ◌≤◌, refl, Bool, some, ltb, arith}
use mishegos.Slots.{InputSlot}
use mishegos.Gen.{Gen}
use mishegos.Gen.Keeps.{Any, Keeps}
use mishegos.Fuzzer.Worker.{mishegos_num_slots_per_chunk}
use mishegos.Fuzzer.Fill.{fill}
use mishegos.Fuzzer.Fill.Full.{IsFilling, fill-IsFilling}
use mishegos.Tests.Inputs.{nop}

abbrev three : InputSlot → Gen ℕ (Bool × InputSlot)
three slot calls = some ((ltb calls 3, record slot { len = 1 }), calls + 1)

abbrev IsShort : InputSlot → Type 0
IsShort slot = slot.len ≤ 15

fill-IsFilling_example :
    Keeps Any (IsFilling IsShort mishegos_num_slots_per_chunk) (fill three (λ j. nop))
fill-IsFilling_example =
    fill-IsFilling Any IsShort three (λ j. nop)
      (λ slot h. record {
        keep =
            λ calls _. ((ltb calls 3, record slot { len = 1 }), calls + 1, refl, tt, omega arith);
      })
      (λ j. omega arith)
