-- ===== src/Mutator/Candidate.antt =====
-- src/mishegos/mutator.c: `insn_candidate` and the sliding generator.
pub mod Shape
pub mod Windows
pub mod Sweep
use mishegos.Base.{
  ℕ, zero, suc, ◌+◌, ◌-◌, ◌%◌, ◌^◌, Bool, true, false, List, [], ◌∷◌, length, replicate, leb, ◌==◌,
  if◌then◌else◌,
}
use mishegos.Bytes.{le_bytes}
use mishegos.Slots.{InputSlot, mishegos_insn_maxlen}
use mishegos.Gen.{Rng, Gen, ◌>>=◌, pure, rand_byte, rand_long, store, load}
use mishegos.Mutator.Opcode.{Opcode, legacy_prefixes, rex_prefixes, pick, rand_opcode}

-- `insn` is an array of 28 bytes, of which the first `len` count.
pub record InsnCandidate : Type 0 where
  pub off : ℕ  -- uint8_t
  pub len : ℕ  -- uint8_t
  pub insn : List ℕ

abbrev pub insn_size : ℕ
insn_size = 28

-- `memset(&insn_cand, 0, sizeof(insn_candidate))`
abbrev pub zeroed : InsnCandidate
zeroed = record { off = 0; len = 0; insn = replicate insn_size 0 }

-- The loop over `i` that stores random legacy prefixes, with `n` rounds left.
unfoldable pub fill_legacy : (g : Rng) → ℕ → ℕ → List ℕ → Gen g.State (List ℕ)
fill_legacy g zero i buf = pure buf
fill_legacy g (suc n) i buf = do
  r ← rand_byte g
  buf' ← store buf i (pick legacy_prefixes r ∷ [])
  fill_legacy g n (i + 1) buf'

-- `memcpy(insn_cand.insn + insn_cand.len, src, n); insn_cand.len += n;`
append : (g : Rng) → InsnCandidate → List ℕ → Gen g.State InsnCandidate
append g c src = do
  insn ← store c.insn c.len src
  pure (record c { len = (c.len + length src) % 256; insn = insn })

-- The switch on `rand_byte() % 3`.
rex_case : (g : Rng) → ℕ → InsnCandidate → Gen g.State InsnCandidate
rex_case g k c =
    if k == 0
    then (do r ← rand_byte g; append g c (pick rex_prefixes r ∷ []))
    else if k == 1
    then (do r ← rand_byte g; append g c (r ∷ []))
    else pure c

-- `displacement` or `immediate`: 1, 2, 4 or 8 bytes of a random number.
append_field : (g : Rng) → InsnCandidate → Gen g.State InsnCandidate
append_field g c = do
  r ← rand_byte g
  v ← rand_long g
  bytes ← load (le_bytes 8 v) 0 (2 ^ (r % 4))
  append g c bytes

-- Either none, or such a field.
maybe_field : (g : Rng) → InsnCandidate → Gen g.State InsnCandidate
maybe_field g c = do r ← rand_byte g; if r % 2 == 0 then append_field g c else pure c

-- ModR/M and SIB, the displacement and the immediate.
modrm_onwards : (g : Rng) → InsnCandidate → Gen g.State InsnCandidate
modrm_onwards g c = do
  modrm ← rand_byte g
  c ← append g c (modrm ∷ [])
  sib ← rand_byte g
  c ← append g c (sib ∷ [])
  c ← maybe_field g c
  maybe_field g c

-- `junk` is what the uninitialised local variable `opc` holds.
unfoldable pub build_sliding_candidate : (g : Rng) → Opcode → Gen g.State InsnCandidate
unfolding append rex_case append_field maybe_field modrm_onwards
build_sliding_candidate g junk = do
  insn ← fill_legacy g 4 0 zeroed.insn
  r ← rand_byte g
  c ← rex_case g (r % 3) (record zeroed { len = (zeroed.len + 4) % 256; insn = insn })
  opc ← rand_opcode g junk
  bytes ← load opc.op 0 opc.len
  c ← append g c bytes
  modrm_onwards g c

-- The window at the current offset goes to the slot, and the offset moves on.
unfoldable pub emit_window :
    (g : Rng) → InsnCandidate → InputSlot → Gen g.State (Bool × InputSlot × InsnCandidate)
emit_window g c slot =
    if leb c.len mishegos_insn_maxlen
    then (do
      bytes ← load c.insn 0 c.len
      raw ← store slot.raw_insn 0 bytes
      pure (true, record slot { len = c.len; raw_insn = raw }, record c { off = 0 }))
    else (do
      bytes ← load c.insn c.off mishegos_insn_maxlen
      raw ← store slot.raw_insn 0 bytes
      pure (
        true,
        record slot { len = mishegos_insn_maxlen; raw_insn = raw },
        record c { off = (c.off + 1) % (c.len - mishegos_insn_maxlen + 1) % 256 },
      ))

unfoldable pub sliding_candidate :
    (g : Rng) → Opcode → InsnCandidate → InputSlot → Gen g.State (Bool × InputSlot × InsnCandidate)
unfolding emit_window
sliding_candidate g junk c slot = do
  c' ← (if c.off == 0 then build_sliding_candidate g junk else pure c)
  emit_window g c' slot
