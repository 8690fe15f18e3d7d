-- ===== src/Fuzzer/System/Moves.antt =====
-- src/mishegos/mishegos.c: one move of a worker.
use mishegos.Base.{
  ℕ, ◌+◌, ◌-◌, ◌^◌, ◌≤◌, ◌<◌, ◌≡◌, refl, sym, ap, ◌∙◌, subst, inl, inr, false, ◌==◌, arith,
  Bool-cases,
}
use mishegos.Slots.{InputSlot, OutputSlot}
use mishegos.Fuzzer.Worker.{
  InputChunk, OutputChunk, Shared, Decoding, Decoded, update, sub_size, to_u32, add_workers,
  minus_one, start_slot, decode_chunk, mishegos_num_chunks, mishegos_num_slots_per_chunk,
}
use mishegos.Fuzzer.Worker.Slot.{
  Filled, After, expected, decode_slots-After, sub_size_lem, to_u32_lem, update_same,
}
use mishegos.Fuzzer.Crew.Flags.{Unmarked}
use mishegos.Fuzzer.System.{Position, Move, work, by_decoded, behind_chunk}
use mishegos.Fuzzer.System.Stamps.{stamp, job, jobs}
use mishegos.Fuzzer.System.Fit.{worker_of, Answered, Standing, Resting, Stands, Fit, rest-Standing}

module _ (try_decode : OutputSlot → InputSlot → Decoding) where
  -- The loop over the slots goes on behind the answers that are there.
  decode_chunk-After :
      (ic : InputChunk) (out : ℕ → OutputChunk) (x v : ℕ)
      → ic.input_count < 2 ^ 32
      → Standing try_decode (job ic) out x v
      → (old : ℕ → OutputSlot) × After try_decode ic old
          (ic.input_count - start_slot ic (out x))
          (decode_chunk try_decode ic (out x))
  unfolding decode_chunk start_slot Answered Filled expected
  decode_chunk-After ic out x v lt st =
      let start = start_slot ic (out x) in
      let (old, f) = st.begun in
      let left : to_u32 (sub_size ic.input_count start) ≡ ic.input_count - start =
        ap to_u32 (sub_size_lem ic.input_count start st.in_chunk lt) ∙ to_u32_lem _ (omega arith) in
      (
        old,
        decode_slots-After try_decode ic old (ic.input_count - start) start _ lt
            (omega (arith, st.in_chunk)) left f,
      )

  module _ (pid v : ℕ) (s : Shared) where
    abbrev chunks : ℕ → InputChunk
    chunks = jobs s.input_chunks

    -- What a move makes of a worker that fits.
    unfoldable pub Good : Move → Type 0
    Good (Move.finishes g x s') =
        (stamp s.input_chunks x ≡ v + 16)
        × (x < mishegos_num_chunks)
        × (s'.input_chunks ≡ update s.input_chunks x (add_workers minus_one (s.input_chunks x)))
        × Unmarked s s'
        × Fit try_decode chunks (worker_of pid s') (Position.counted g x) (v + 1)
    Good (Move.dies g x s') =
        (s'.input_chunks ≡ s.input_chunks)
        × Unmarked s s'
        × Fit try_decode chunks (worker_of pid s') (Position.dead g x) v
    Good (Move.leaves p) = Fit try_decode chunks (worker_of pid s) p v
    Good Move.blocked = Unit

    -- Outside the chunk at `x` the answers are as before.
    behind-update :
        (x j : ℕ) (oc : OutputChunk) {p : Position}
        → Fit try_decode chunks (worker_of pid s) p v
        → (j == x) ≡ false
        → j < mishegos_num_chunks
        → 16 ≤ stamp chunks j
        → stamp chunks j < v + 16
        → Answered try_decode
            (chunks j)
            (chunks j).input_count
            (update s.output_chunks x oc j).outputs
    behind-update x j oc {p} f other inside later lt = rw other (f.behind j inside later lt)

    remaining-update :
        (x : ℕ) (oc : OutputChunk)
        → oc.remaining ≡ 0
        → ((j : ℕ) → (j == x) ≡ false → (s.output_chunks j).remaining ≡ 0)
        → (j : ℕ) → (update s.output_chunks x oc j).remaining ≡ 0
    remaining-update x oc none h j = elim (Bool-cases (j == x)) [
      | inl here ↦ rw here none
      | inr other ↦ rw other (h j other)
    ]

    decoded-Good :
        (g x : ℕ) (d : Decoded) (old : ℕ → OutputSlot) (n : ℕ)
        → Fit try_decode chunks (worker_of pid s) (Position.at g x) v
        → stamp s.input_chunks x ≡ v + 16
        → After try_decode (s.input_chunks x) old n d
        → Good (by_decoded g x s d)
    unfolding Good After Stands Resting Answered Filled expected
    decoded-Good g x (Decoded.finished oc) old n f handed (none, filled) =
        let (quiet, e, st) = f.stands in
        let inside = st.inside in
        let still : (j : ℕ) → (update s.output_chunks x oc j).remaining ≡ 0 =
          remaining-update x oc none st.elsewhere in
        (
          handed,
          inside,
          refl,
          record { sigchld = refl; start_idx = refl },
          record {
            stands = ((quiet, still), inside, omega arith);
            behind = λ j within later lt. elim (Bool-cases (j == x)) [
              | inl here ↦
                  let same : j ≡ x = ground arith in
                  rw here (
                    old,
                    subst
                        (λ (k : ℕ).
                          Filled try_decode (job (s.input_chunks k)) old
                            (s.input_chunks k).input_count oc.outputs)
                        (sym same) filled,
                  )
              | inr other ↦
                  let elsewhere : (j == x) ≡ false = other in
                  behind-update x j oc f other within later (ground (arith, handed))
            ];
          },
        )
    decoded-Good g x (Decoded.died oc) old n f handed (i, m, remains, sum, le, filled) =
        let (quiet, e, st) = f.stands in
        let here = update_same x oc s.output_chunks in
        (
          refl,
          record { sigchld = refl; start_idx = refl },
          record {
            stands = (
              e,
              inl (
                quiet,
                record {
                  inside = st.inside;
                  handed = handed;
                  slot = i;
                  left = m;
                  remains = ap (λ (o : OutputChunk). o.remaining) here ∙ remains;
                  in_chunk = sum;
                  begun = rw here (old, filled);
                  elsewhere = λ j other. rw other (st.elsewhere j other);
                },
              ),
            );
            behind = λ j within later lt. elim (Bool-cases (j == x)) [
              | inl here ↦
                  let same : j ≡ x = ground arith in
                  absurd (omega (arith, handed, lt, ap (stamp chunks) same))
              | inr other ↦ behind-update x j oc f other within later lt
            ];
          },
        )

    -- Behind a chunk the worker goes on, or leaves its loop.
    counted-Good :
        (g x : ℕ)
        → Fit try_decode chunks (worker_of pid s) (Position.counted g x) v
        → v + 16 < 2 ^ 36
        → Good (Move.leaves (behind_chunk g x (s.input_chunks x)))
    unfolding Good Stands Resting
    counted-Good g x f bound =
        let ((quiet, still), inside, e) = f.stands in
        elim (Bool-cases ((s.input_chunks x).input_count == mishegos_num_slots_per_chunk)) [
          | inr short ↦ rw short (record { stands = (quiet, still); behind = f.behind })
          | inl full ↦ elim (Bool-cases (x + 1 == mishegos_num_chunks)) [
            | inl last ↦
                rw (full, last)
                  (record {
                    stands = (
                      quiet,
                      ground arith,
                      rest-Standing try_decode (chunks 0) s.output_chunks 0 v (omega arith) still,
                    );
                    behind = f.behind;
                  })
            | inr inner ↦
                rw (full, inner)
                  (record {
                    stands = (
                      quiet,
                      omega arith,
                      rest-Standing try_decode (chunks (x + 1)) s.output_chunks (x + 1) v
                          (ground arith) still,
                    );
                    behind = f.behind;
                  })
          ]
        ]

    pub work-Good :
        (p : Position)
        → Fit try_decode chunks (worker_of pid s) p v
        → ((j : ℕ) → (s.input_chunks j).input_count < 2 ^ 32)
        → v + 16 < 2 ^ 36
        → Good (work try_decode p s)
    unfolding work Good Stands
    work-Good (Position.at g x) f counts bound =
        elim (Bool-cases ((s.input_chunks x).generation == g)) [
          | inl mine ↦
              let same : (s.input_chunks x).generation ≡ g = ground arith in
              let (quiet, e, st) = f.stands in
              let handed : stamp s.input_chunks x ≡ v + 16 = omega (arith, e) in
              let (old, h) =
                decode_chunk-After (s.input_chunks x) s.output_chunks x v (counts x) st in
              rw mine (decoded-Good g x _ old _ f handed h)
          | inr waiting ↦ rw waiting tt
        ]
    work-Good (Position.counted g x) f counts bound = counted-Good g x f bound
    work-Good Position.ended f counts bound = tt
    work-Good (Position.dead g x) f counts bound = tt
