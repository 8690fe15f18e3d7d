-- ===== src/Mutator/Structured.antt =====
-- src/mishegos/mutator.c: `structured_candidate`.
pub mod Shape
use mishegos.Base.{ℕ, ◌+◌, ◌-◌, ◌%◌, Bool, true, List, [], ◌∷◌, length, ltb, ◌==◌, if◌then◌else◌}
use mishegos.Bytes.{le_bytes}
use mishegos.Slots.{InputSlot, mishegos_insn_maxlen}
use mishegos.Gen.{Rng, Gen, ◌>>=◌, pure, rand_byte, rand_long, store, load}
use mishegos.Mutator.Opcode.{Opcode, rex_prefixes, pick, rand_opcode}
use mishegos.Mutator.Candidate.{fill_legacy}

-- The local variable `len` and the bytes of the slot, on the way.
pub record Draft : Type 0 where
  pub len : ℕ  -- uint8_t
  pub raw_insn : List ℕ

-- `memcpy(slot->raw_insn + len, src, n); len += n;`
extend : (g : Rng) → Draft → List ℕ → Gen g.State Draft
extend g d src = do
  raw ← store d.raw_insn d.len src
  pure (record { len = (d.len + length src) % 256; raw_insn = raw })

-- `if (rand_byte() % 2)`, with what stands under it.
maybe : (g : Rng) → Draft → (Draft → Gen g.State Draft) → Gen g.State Draft
maybe g d step = do r ← rand_byte g; if r % 2 == 0 then pure d else step d

random_rex : (g : Rng) → Draft → Gen g.State Draft
random_rex g d = do r ← rand_byte g; extend g d (pick rex_prefixes r ∷ [])

random_byte : (g : Rng) → Draft → Gen g.State Draft
random_byte g d = do r ← rand_byte g; extend g d (r ∷ [])

-- Random bytes for the immediate and displacement, cut off at the end of the slot.
fill_tail : (g : Rng) → Draft → Gen g.State Draft
fill_tail g d = do
  tail ← rand_long g
  r ← rand_byte g
  let size = r % 6
  let tail_size =
      if ltb mishegos_insn_maxlen (d.len + size) then mishegos_insn_maxlen - d.len else size
  bytes ← load (le_bytes 8 tail) 0 tail_size
  extend g d bytes

-- `junk` is what the uninitialised local variable `opc` holds.
pub structured_candidate : (g : Rng) → Opcode → InputSlot → Gen g.State (Bool × InputSlot)
unfolding extend maybe random_rex random_byte fill_tail
structured_candidate g junk slot = do
  r ← rand_byte g
  raw ← fill_legacy g (r % 5) 0 slot.raw_insn
  d ← maybe g (record { len = r % 5; raw_insn = raw }) (random_rex g)
  opc ← rand_opcode g junk
  bytes ← load opc.op 0 opc.len
  d ← extend g d bytes
  d ← maybe g d (random_byte g)
  d ← maybe g d (random_byte g)
  d ← fill_tail g d
  pure (true, record { len = d.len; raw_insn = d.raw_insn })
