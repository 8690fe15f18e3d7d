-- ===== src/Tests/Generators.antt =====
-- The generators of candidates at concrete states.
use mishegos.Base.{ℕ, ◌≡◌, ◌≢◌, refl, inl, inr, true, some, List, [], ◌∷◌, ◌++◌, replicate, arith}
use mishegos.Gen.Returns.{Returns}
use mishegos.Xoroshiro.Laws.{IsValid, xoroshiro}
use mishegos.Xoroshiro.Cycle.{zero_state, next_state_injective}
use mishegos.Mutator.Opcode.{rand_opcode}
use mishegos.Mutator.Opcode.Format.{Made, rand_opcode-Made}
use mishegos.Mutator.Candidate.{InsnCandidate, zeroed, build_sliding_candidate, sliding_candidate}
use mishegos.Mutator.Candidate.Shape.{SlidingParts, Holds, build_sliding_candidate-SlidingParts}
use mishegos.Mutator.Candidate.Windows.{Emitted, sliding_candidate-Emitted}
use mishegos.Mutator.Candidate.Sweep.{sweep, windows, sweep-windows}
use mishegos.Mutator.Havoc.{havoc_candidate, IsFilled, havoc_candidate-IsFilled}
use mishegos.Mutator.Structured.{structured_candidate}
use mishegos.Mutator.Structured.Shape.{IsStructured, structured_candidate-IsStructured}
use mishegos.Mutator.Manual.{manual_candidate}
use mishegos.Mutator.Manual.RoundTrip.{manual_candidate-hexbuf}
use mishegos.Mish2jsonl.Hex.{hexbuf}
use mishegos.Tests.Inputs.{seed, junk, dirty_slot}

seed-IsValid : IsValid seed
seed-IsValid = omega arith

next_state_injective_example : seed ≡ seed
next_state_injective_example = next_state_injective seed seed seed-IsValid seed-IsValid refl

seed-ne-zero : seed ≢ zero_state
seed-ne-zero e = cc

rand_opcode-Made_example : Returns (Made junk.op) (rand_opcode xoroshiro junk)
rand_opcode-Made_example = rand_opcode-Made xoroshiro junk refl

build_sliding_candidate_example :
    Returns
      (λ c. (w : List ℕ) × SlidingParts w × Holds w c)
      (build_sliding_candidate xoroshiro junk)
build_sliding_candidate_example = build_sliding_candidate-SlidingParts xoroshiro junk refl

sliding_candidate-Emitted_example :
    Returns Emitted (sliding_candidate xoroshiro junk zeroed dirty_slot)
sliding_candidate-Emitted_example =
    sliding_candidate-Emitted xoroshiro junk zeroed dirty_slot refl
      (record { size = refl; fits = omega arith; window = inl refl }) refl

-- A candidate of 17 bytes, of which the first window is out.
abbrev on_the_way : InsnCandidate
on_the_way = record { off = 1; len = 17; insn = 1 ∷ 2 ∷ 3 ∷ replicate 25 0x90 }

sweep-windows_example :
    Returns
      (λ r. r ≡ (windows on_the_way.insn 1 2, record on_the_way { off = 0 }))
      (sweep xoroshiro junk on_the_way (dirty_slot ∷ dirty_slot ∷ []))
sweep-windows_example =
    sweep-windows xoroshiro junk on_the_way (dirty_slot ∷ dirty_slot ∷ [])
      (record { size = refl; fits = omega arith; window = inr (omega arith) }) (omega arith)
      (omega arith) (omega arith) (refl, (refl, tt))

havoc_candidate-IsFilled_example :
    Returns (λ r. (r.0 ≡ true) × IsFilled r.1) (havoc_candidate xoroshiro dirty_slot)
havoc_candidate-IsFilled_example = havoc_candidate-IsFilled xoroshiro dirty_slot refl

structured_candidate-IsStructured_example :
    Returns (λ r. (r.0 ≡ true) × IsStructured r.1) (structured_candidate xoroshiro junk dirty_slot)
structured_candidate-IsStructured_example =
    structured_candidate-IsStructured xoroshiro junk dirty_slot refl refl

manual_candidate-hexbuf_example :
    manual_candidate dirty_slot (hexbuf (0x0f ∷ 0xab ∷ []) ++ (0x0a ∷ b'9' ∷ []))
    ≡ some ((true, record { len = 2; raw_insn = 0x0f ∷ 0xab ∷ replicate 13 0xcc }), b'9' ∷ [])
manual_candidate-hexbuf_example =
    manual_candidate-hexbuf dirty_slot (0x0f ∷ 0xab ∷ []) (b'9' ∷ []) refl (omega arith)
      (omega arith) (omega arith)
