-- ===== src/Mutator/Select/Calls.antt =====
-- src/mishegos/mutator.c: calls through the pointer that `mutator_create` gives.
use mishegos.Base.{◌≡◌, refl, Bool, true, false, not, ◌||◌, List, ℕ, length, arith}
use mishegos.Slots.{InputSlot, IsSized}
use mishegos.Gen.{Rng, Gen, ◌>>=◌}
use mishegos.Gen.Returns.{Returns, Returns-imp}
use mishegos.Gen.Keeps.{Keeps}
use mishegos.Mutator.Opcode.{Opcode}
use mishegos.Mutator.Candidate.Windows.{IsValid, sliding_candidate-Emitted}
use mishegos.Mutator.Havoc.{dummy_candidate-IsSized, havoc_candidate-IsFilled}
use mishegos.Mutator.Structured.Shape.{structured_candidate-IsStructured}
use mishegos.Mutator.Manual.RoundTrip.{manual_candidate-IsSized}
use mishegos.Mutator.Select.{
  Mutator, dummy, sliding, structured, havoc, manual, Globals, on_rng, on_stdin, keep_cand,
  call_mutator,
}

-- The candidate that lives across the calls is valid.
abbrev pub IsReady : {g : Rng} → Globals g → Type 0
IsReady s = IsValid s.insn_cand

module _ {A : Type 0} {P : A → Type 0} (g : Rng) where
  Keeps-on_rng : {m : Gen g.State A} → Returns P m → Keeps IsReady P (on_rng g m)
  unfolding on_rng
  Keeps-on_rng h = record {
    keep = λ s i.
        let (a, r, e, p) = h.run s.rng_state in
        (a, record s { rng_state = r }, rw (e, on_rng) refl, i, p);
  }

  Keeps-on_stdin : {m : Gen (List ℕ) A} → Returns P m → Keeps IsReady P (on_stdin g m)
  unfolding on_stdin
  Keeps-on_stdin h = record {
    keep = λ s i.
        let (a, rest, e, p) = h.run s.stdin in
        (a, record s { stdin = rest }, rw (e, on_stdin) refl, i, p);
  }

-- The generators that always fill the slot.
pub endless : Mutator → Bool
endless dummy = false
endless sliding = true
endless structured = true
endless havoc = true
endless manual = false

-- What a call leaves: a slot in range, which is filled unless the generator can come to an end.
pub record Called (m : Mutator) (res : Bool × InputSlot) : Type 0 where
  pub sized : IsSized res.1
  pub filled : (not (endless m) || res.0) ≡ true

-- Whichever generator `mutator_create` chose, a call from valid variables returns, copies nothing out
-- of bounds, leaves valid variables and a slot in range; and only the dummy and the manual generator
-- can come to an end. The slot has its 15 bytes, and so has the uninitialised opcode its 5.
pub call_mutator-Called :
    (g : Rng) (junk : Opcode) (m : Mutator) (slot : InputSlot)
    → length junk.op ≡ 5
    → IsSized slot
    → Keeps IsReady (Called m) (call_mutator g junk m slot)
unfolding call_mutator endless
call_mutator-Called g junk dummy slot five v = Keeps-on_rng g (
    Returns-imp (dummy_candidate-IsSized g slot v.size)
      λ res h. record { sized = h; filled = refl })
call_mutator-Called g junk sliding slot five v = record {
  keep = λ s i.
      let ((filled, slot', c), r, e, h) =
        (sliding_candidate-Emitted g junk s.insn_cand slot five i v.size).run s.rng_state in
      (
        (filled, slot'),
        record s { rng_state = r; insn_cand = c },
        rw (e, on_rng, ◌>>=◌, keep_cand) refl,
        h.valid,
        record { sized = record { size = h.whole; short = h.short }; filled = h.filled },
      );
}
call_mutator-Called g junk structured slot five v = Keeps-on_rng g (
    Returns-imp (structured_candidate-IsStructured g junk slot five v.size) λ res (filled, h).
      record {
        sized = record { size = h.size; short = omega (arith, h.counted, h.short) };
        filled = filled;
      })
call_mutator-Called g junk havoc slot five v = Keeps-on_rng g (
    Returns-imp (havoc_candidate-IsFilled g slot v.size) λ res (filled, h). record {
      sized = record { size = h.size; short = h.short };
      filled = filled;
    })
call_mutator-Called g junk manual slot five v =
    Keeps-on_stdin g
      (Returns-imp (manual_candidate-IsSized slot v) λ res h. record { sized = h; filled = refl })
