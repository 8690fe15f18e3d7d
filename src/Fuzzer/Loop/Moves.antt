-- ===== src/Fuzzer/Loop/Moves.antt =====
-- src/mishegos/mishegos.c: one round of the loop of `main`.
use mishegos.Base.{
  ℕ, suc, ◌+◌, ◌^◌, ◌≤◌, ◌<◌, ◌≡◌, refl, ap, ◌∙◌, Bool, true, false, [], ◌++◌, length, ◌==◌, arith,
  append-nil, append_assoc, Bool-cases, inl, inr,
}
use mishegos.Slots.{InputSlot}
use mishegos.Gen.{Gen}
use mishegos.Gen.Keeps.{Keeps, Keeps-pure, Keeps-bind}
use mishegos.Fuzzer.Worker.{mishegos_num_slots_per_chunk, mishegos_num_chunks, to_u32}
use mishegos.Fuzzer.Fill.{Filling, Ring, advance, handed_over, publish, fill_next}
use mishegos.Fuzzer.Fill.Full.{IsFilling, fill-IsFilling}
use mishegos.Fuzzer.Loop.{slots, handed}
use mishegos.Fuzzer.Loop.Window.{next_idx, distance, window, window-cons, window-update}
use mishegos.Fuzzer.Loop.Round.{
  live, pending, IsRing, Moves, advance_lem, handed-publish, length-slots,
}

module _ (P : InputSlot → Type 0) where
  advance-IsRing :
      (r : Ring)
      → r.idx < mishegos_num_chunks
      → r.exit_idx ≤ mishegos_num_chunks
      → 1 ≤ r.gen
      → (r.gen ≡ 1
          → (j : ℕ) → r.idx < j
          → j < mishegos_num_chunks
          → (r.input_chunks j).input_count ≡ 0)
      → ((j i : ℕ) → P ((r.input_chunks j).inputs i))
      → r.gen + 1 < 2 ^ 64
      → IsRing P (advance r)
  advance-IsRing r inside exit_in started unfilled kept bound =
      let (ei, ee, ec, eg) = advance_lem r in
      record {
        inside = rw ei (ground arith);
        exit_in = rw ee exit_in;
        started = rw eg (ground arith);
        unfilled = λ first j le lt. rw ec (unfilled (ground arith) j (ground arith) lt);
        kept = λ j i. rw ec (kept j i);
      }

  advance-Moves :
      (r : Ring)
      → IsRing P r
      → (r.exit_idx == mishegos_num_chunks) ≡ false
      → (r.idx == r.exit_idx) ≡ false
      → r.gen + 1 < 2 ^ 64
      → Moves P r (advance r)
  unfolding handed pending
  advance-Moves r v leaving on bound =
      let (ei, ee, ec, eg) = advance_lem r in
      let inside = v.inside in
      let exit_in = v.exit_in in
      let started = v.started in
      let far : distance r.idx r.exit_idx ≡ suc (distance (next_idx r.idx) r.exit_idx) =
        ground arith in
      let chunks = r.input_chunks in
      let m = distance (next_idx r.idx) r.exit_idx in
      let now : live r ≡ suc (suc m) = rw leaving (omega (arith, far)) in
      let later : live (advance r) ≡ suc m = rw (ee, ei, leaving) (omega arith) in
      let before : pending r ≡ slots (chunks r.idx) ++ window chunks (next_idx r.idx) (suc m) =
        ap (window chunks r.idx) now ∙ window-cons chunks r.idx (suc m) in
      let after : pending (advance r) ≡ window chunks (next_idx r.idx) (suc m) =
        rw (later, ec, ei) refl in
      let none_handed : handed r (advance r) ≡ [] = rw leaving refl in
      record {
        ring =
            advance-IsRing r inside exit_in started
              (λ first j le lt. v.unfilled first j (omega arith) lt) v.kept bound;
        slower = rw eg (ground arith);
        order = rw (before, after, none_handed) (append-nil _);
        pace = rw (ee, ei, leaving) (omega (arith, far));
      }

module _ {S : Type 0} (I : S → Type 0) (P : InputSlot → Type 0)
    (mutator : InputSlot → Gen S (Bool × InputSlot)) where
  publish-Moves :
      (nworkers : ℕ) (f : Filling) (r : Ring)
      → IsRing P r
      → (r.exit_idx == mishegos_num_chunks) ≡ true
      → IsFilling P mishegos_num_slots_per_chunk f
      → r.gen + 1 < 2 ^ 64
      → Moves P r (advance (publish nworkers f r))
  unfolding handed pending publish
  publish-Moves nworkers f r v filling h bound =
      let q = publish nworkers f r in
      let (ei, ee, ec, eg) = advance_lem q in
      let inside = v.inside in
      let exit_in = v.exit_in in
      let started = v.started in
      let around : distance (next_idx r.idx) r.idx ≡ 15 = ground arith in
      let onto : next_idx r.idx < 16 = ground arith in
      let chunks = r.input_chunks in
      let given = handed_over nworkers f r.gen in
      let outside : (r.idx == 16) ≡ false = ground arith in
      let later : live (advance q) ≡ 16 = elim (Bool-cases f.exhausted) [
        | inl gone ↦ rw (ee, ei, gone, outside) (omega (arith, around))
        | inr more ↦ rw (ee, ei, more, filling) refl
      ] in
      let now : live r ≡ 16 = rw filling refl in
      let before : pending r ≡ slots (chunks r.idx) ++ window chunks (next_idx r.idx) 15 =
        ap (window chunks r.idx) now ∙ window-cons chunks r.idx 15 in
      let after : pending (advance q) ≡ window chunks (next_idx r.idx) 15 ++ slots given =
        rw (later, ec, ei)
          (window-update chunks given 15 (next_idx r.idx) r.idx onto inside around) in
      let at : handed r (advance q) ≡ slots given = handed-publish nworkers f r filling in
      let leaves : q.exit_idx ≤ mishegos_num_chunks = elim (Bool-cases f.exhausted) [
        | inl gone ↦ rw gone (omega arith)
        | inr more ↦ rw more exit_in
      ] in
      record {
        ring =
            advance-IsRing P q inside leaves started
              (λ first j le lt.
                let other : (j == r.idx) ≡ false = ground arith in
                rw other (v.unfilled first j (omega arith) lt))
              (λ j i. elim (Bool-cases (j == r.idx)) [
                | inl here ↦ rw here (h.slots i)
                | inr other ↦ rw other (v.kept j i)
              ])
              bound;
        slower = rw eg (ground arith);
        order =
            rw (before, after, at)
              (append_assoc (slots (chunks r.idx)) (window chunks (next_idx r.idx) 15)
                (slots given));
        pace = elim (Bool-cases f.exhausted) [
          | inl gone ↦ rw (ee, ei, gone, outside, filling) (omega (arith, around))
          | inr more ↦
              let all_filled : f.count ≡ 4096 = ground (arith, h.full) in
              let size : length (slots given) ≡ 4096 = length-slots given ∙ ap to_u32 all_filled in
              rw (at, ee, more, filling, size) (omega arith)
        ];
      }

  pub fill_next-Moves :
      (nworkers : ℕ) (r : Ring)
      → ((slot : InputSlot) → P slot → Keeps I (λ res. P res.1) (mutator slot))
      → IsRing P r
      → (r.idx == r.exit_idx) ≡ false
      → r.gen + 1 < 2 ^ 64
      → Keeps I (Moves P r) (fill_next mutator nworkers r)
  unfolding fill_next
  fill_next-Moves nworkers r keeps v on bound =
      elim (Bool-cases (r.exit_idx == mishegos_num_chunks)) [
        | inl filling ↦ rw filling (
            Keeps-bind (fill-IsFilling I P mutator _ keeps (v.kept r.idx))
              λ f h. Keeps-pure _ (publish-Moves nworkers f r v filling h bound))
        | inr leaving ↦ rw leaving (Keeps-pure _ (advance-Moves P r v leaving on bound))
      ]
