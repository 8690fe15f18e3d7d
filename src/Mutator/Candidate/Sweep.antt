-- ===== src/Mutator/Candidate/Sweep.antt =====
-- Successive calls of `sliding_candidate`, as the fuzzer makes them to fill its input slots.
use mishegos.Base.{
  ℕ, zero, suc, ◌+◌, ◌<◌, ◌≡◌, refl, inr, true, false, List, [], ◌∷◌, length, All, take, drop,
  arith, ◌==◌,
}
use mishegos.Slots.{InputSlot, mishegos_insn_maxlen}
use mishegos.Gen.{Rng, Gen, ◌>>=◌, pure}
use mishegos.Gen.Returns.{Returns, Returns-pure, Returns-bind_eq}
use mishegos.Mutator.Opcode.{Opcode}
use mishegos.Mutator.Candidate.{InsnCandidate, sliding_candidate}
use mishegos.Mutator.Candidate.Windows.{IsValid, next_off, window_slot, emit_window_long}

-- The generator called once for each slot; the slots that it filled, and its candidate behind them.
pub sweep :
    (g : Rng)
    → Opcode
    → InsnCandidate
    → List InputSlot
    → Gen g.State (List InputSlot × InsnCandidate)
sweep g junk c [] = pure ([], c)
sweep g junk c (slot ∷ slots) = do
  (filled, slot', c') ← sliding_candidate g junk c slot
  (rest, c'') ← sweep g junk c' slots
  pure (slot' ∷ rest, c'')

-- The `n` windows of 15 bytes from offset `i` on, one byte apart.
pub windows : List ℕ → ℕ → ℕ → List InputSlot
windows insn i zero = []
windows insn i (suc n) =
    record { len = 15; raw_insn = take 15 (drop i insn) } ∷ windows insn (i + 1) n

inside_window :
    (g : Rng) (junk : Opcode) (c : InsnCandidate) (slot : InputSlot)
    → IsValid c
    → 0 < c.off
    → c.off + 15 < c.len + 1
    → length slot.raw_insn ≡ 15
    → Returns
        (λ r. r ≡ (true, window_slot c, record c { off = next_off c }))
        (sliding_candidate g junk c slot)
unfolding sliding_candidate
inside_window g junk c slot v later inside full =
    let nonzero : (c.off == 0) ≡ false = ground arith in
    rw nonzero (emit_window_long g c slot v (omega arith) (omega arith) full)

-- Once the first window is out, the calls that follow hand out every later window of the candidate,
-- in order, and the last one sets the offset back to 0, so that the next call builds a new candidate.
pub sweep-windows :
    (g : Rng) (junk : Opcode) (c : InsnCandidate) (slots : List InputSlot)
    → IsValid c
    → 0 < c.off
    → c.off + 14 + length slots ≡ c.len
    → 0 < length slots
    → All (λ slot. length slot.raw_insn ≡ mishegos_insn_maxlen) slots
    → Returns
        (λ r. r ≡ (windows c.insn c.off (length slots), record c { off = 0 }))
        (sweep g junk c slots)
unfolding sweep windows
sweep-windows g junk c [] v later room some_slot full = absurd (omega arith)
sweep-windows g junk c (slot ∷ []) v later room some_slot full =
    let end : next_off c ≡ 0 = ground arith in
    Returns-bind_eq _ _ (inside_window g junk c slot v later (omega arith) full.0)
      (Returns-pure _ (rw end))
sweep-windows g junk c (slot ∷ slot' ∷ slots) v later room some_slot full =
    let on : next_off c ≡ c.off + 1 = ground arith in
    let c' = record c { off = c.off + 1 } in
    Returns-bind_eq _ _ (inside_window g junk c slot v later (omega arith) full.0) (
      rw on (
        Returns-bind_eq _ _
          (sweep-windows g junk c' (slot' ∷ slots)
            (record { size = v.size; fits = v.fits; window = inr (omega arith) }) (omega arith)
            (omega arith) (omega arith) full.1)
          (Returns-pure _ refl)))
