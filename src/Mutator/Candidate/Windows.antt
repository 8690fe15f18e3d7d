-- ===== src/Mutator/Candidate/Windows.antt =====
-- `sliding_candidate` over its calls: no access leaves a buffer, and the 15-byte window slides
-- through the whole candidate.
use mishegos.Base.{
  ℕ, zero, suc, ◌+◌, ◌-◌, ◌%◌, ◌≤◌, ◌<◌, ◌≡◌, refl, sym, ap, ◌∙◌, ◌⊎◌, inl, inr, Bool, true, false,
  List, [], ◌∷◌, ◌++◌, length, take, drop, arith, if◌then◌else◌, ◌==◌, leb, Bool-cases, le→leb,
  dec_lt, length-take, length-drop, drop_all, append-nil,
}
use native.Mathlib.Nat.{mod_self, mod-eq_of_lt}
use mishegos.Slots.{InputSlot, mishegos_insn_maxlen}
use mishegos.Gen.{Rng}
use mishegos.Gen.Returns.{
  Returns, Returns-pure, Returns-imp, Returns-bind, Returns-store, Returns-load, Wrote-nil,
  length-Wrote, take-Wrote,
}
use mishegos.Mutator.Opcode.{Opcode}
use mishegos.Mutator.Candidate.{InsnCandidate, insn_size, emit_window, sliding_candidate}
use mishegos.Mutator.Candidate.Shape.{build_sliding_candidate-SlidingParts, length-SlidingParts}

-- The candidate fits its array, and the window at a nonzero offset lies inside it.
pub record IsValid (c : InsnCandidate) : Type 0 where
  pub size : length c.insn ≡ insn_size
  pub fits : c.len ≤ insn_size
  pub window : (c.off ≡ 0) ⊎ (c.off + mishegos_insn_maxlen ≤ c.len)

lt→leb-false : {a b : ℕ} → b < a → leb a b ≡ false
lt→leb-false h = ground arith

abbrev pub next_off : InsnCandidate → ℕ
next_off c = if c.off + 15 == c.len then 0 else c.off + 1

next_off_lem :
    (c : InsnCandidate)
    → c.len ≤ 28
    → c.off + 15 ≤ c.len
    → (c.off + 1) % (c.len - 15 + 1) % 256 ≡ next_off c
next_off_lem c fits inside =
    let n = c.len - 15 + 1 in
    let r : (c.off + 1) % n ≡ next_off c = elim (Bool-cases (c.off + 15 == c.len)) [
      | inl end ↦ ground (arith, mod_self n)
      | inr inner ↦ ground (arith, mod-eq_of_lt {n = c.off + 1} {m = n})
    ] in
    rw r (mod-eq_of_lt (ground arith))

next_window :
    (c : InsnCandidate) → c.off + 15 ≤ c.len → (next_off c ≡ 0) ⊎ (next_off c + 15 ≤ c.len)
next_window c inside = ground arith

window_length :
    {c : InsnCandidate} {bytes : List ℕ} (off n : ℕ)
    → IsValid c
    → bytes ≡ take n (drop off c.insn)
    → off + n ≤ insn_size
    → length bytes ≡ n
window_length {c} off n v e room =
    ap length e ∙ length-take n (drop off c.insn) (omega (arith, length-drop off c.insn, v.size))

take-take {ℓ} : {A : Type ℓ} (n : ℕ) (xs : List A) → take n (take n xs) ≡ take n xs
take-take zero xs = refl
take-take (suc n) [] = refl
take-take (suc n) (x ∷ xs) = ap (x ∷◌) (take-take n xs)

abbrev pub window_slot : InsnCandidate → InputSlot
window_slot c = record { len = 15; raw_insn = take 15 (drop c.off c.insn) }

-- A window fills the whole slot.
pub emit_window_long :
    (g : Rng) (c : InsnCandidate) (slot : InputSlot)
    → IsValid c
    → 15 < c.len
    → c.off + 15 ≤ c.len
    → length slot.raw_insn ≡ 15
    → Returns (λ r. r ≡ (true, window_slot c, record c { off = next_off c })) (emit_window g c slot)
unfolding emit_window
emit_window_long g c slot v long inside full = rw (lt→leb-false long) (
    Returns-bind (Returns-load c.insn c.off 15 (omega (arith, v.size))) λ bytes e.
      let n = window_length c.off 15 v e (omega (arith, v.fits)) in
      Returns-bind (Returns-store 0 bytes (Wrote-nil slot.raw_insn) refl (omega arith)) λ raw w.
        let same : raw ≡ take 15 (drop c.off c.insn) =
          w.contents
          ∙ ap (bytes ++◌) (drop_all (length bytes) slot.raw_insn (omega arith))
          ∙ append-nil bytes
          ∙ e in
        Returns-pure _ (rw (same, next_off_lem c v.fits inside)))

-- What a call of the generator hands out: a slot of at most 15 bytes, which are a stretch of the
-- candidate, and a candidate for the next call.
pub record Emitted (r : Bool × InputSlot × InsnCandidate) : Type 0 where
  pub filled : r.0 ≡ true
  pub valid : IsValid r.2
  pub whole : length r.1.raw_insn ≡ mishegos_insn_maxlen
  pub nonempty : 1 ≤ r.1.len
  pub short : r.1.len ≤ mishegos_insn_maxlen
  pub start : ℕ
  pub inside : start + r.1.len ≤ r.2.len
  pub stretch : take r.1.len r.1.raw_insn ≡ take r.1.len (drop start r.2.insn)

emit_window_short :
    (g : Rng) (c : InsnCandidate) (slot : InputSlot)
    → IsValid c
    → 1 ≤ c.len
    → c.len ≤ 15
    → length slot.raw_insn ≡ 15
    → Returns Emitted (emit_window g c slot)
unfolding emit_window
emit_window_short g c slot v some_len short full = rw (le→leb c.len 15 short) (
    Returns-bind (Returns-load c.insn 0 c.len (omega (arith, v.size, v.fits))) λ bytes e.
      let n = window_length 0 c.len v e (omega (arith, v.fits)) in
      Returns-bind (Returns-store 0 bytes (Wrote-nil slot.raw_insn) refl (omega arith)) λ raw w.
        Returns-pure _ (record {
          filled = refl;
          valid = record { size = v.size; fits = v.fits; window = inl refl };
          whole = omega (arith, length-Wrote w);
          nonempty = some_len;
          short = short;
          start = 0;
          inside = omega arith;
          stretch = ap (λ (k : ℕ). take k raw) (sym n) ∙ take-Wrote w ∙ e;
        }))

emit_window-Emitted :
    (g : Rng) (c : InsnCandidate) (slot : InputSlot)
    → IsValid c
    → 1 ≤ c.len
    → length slot.raw_insn ≡ 15
    → Returns Emitted (emit_window g c slot)
emit_window-Emitted g c slot v some_len full = elim (dec_lt 15 c.len) [
  | no small ↦ emit_window_short g c slot v some_len (omega arith) full
  | yes long ↦
      let inside : c.off + 15 ≤ c.len = omega (arith, v.window) in
      Returns-imp (emit_window_long g c slot v long inside full) λ r e. rw e (record {
        filled = refl;
        valid = record { size = v.size; fits = v.fits; window = next_window c inside };
        whole =
            length-take 15 (drop c.off c.insn)
              (omega (arith, length-drop c.off c.insn, v.size, v.fits));
        nonempty = omega arith;
        short = omega arith;
        start = c.off;
        inside = inside;
        stretch = take-take 15 (drop c.off c.insn);
      })
]

-- Every call of `sliding_candidate` on a valid candidate fills its slot, and leaves a valid
-- candidate; no copy on the way leaves a buffer.
pub sliding_candidate-Emitted :
    (g : Rng) (junk : Opcode) (c : InsnCandidate) (slot : InputSlot)
    → length junk.op ≡ 5
    → IsValid c
    → length slot.raw_insn ≡ mishegos_insn_maxlen
    → Returns Emitted (sliding_candidate g junk c slot)
unfolding sliding_candidate
sliding_candidate-Emitted g junk c slot five v full = elim (Bool-cases (c.off == 0)) [
  | inl fresh ↦ rw fresh (
      Returns-bind (build_sliding_candidate-SlidingParts g junk five) λ c' (w, parts, h).
        let (lo, hi) = length-SlidingParts parts in
        emit_window-Emitted g c' slot
          (record {
            size = length-Wrote h.wrote ∙ refl;
            fits = omega (arith, h.counted);
            window = inl h.unslid;
          })
          (omega (arith, h.counted)) full)
  | inr sliding ↦ rw sliding (emit_window-Emitted g c slot v (ground (arith, v.window)) full)
]
