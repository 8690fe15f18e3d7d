-- ===== src/Fuzzer/System/Round.antt =====
-- src/mishegos/mishegos.c: the variables of `main` and the numbers of the chunks, round by round.
use mishegos.Base.{
  ℕ, ◌+◌, ◌*◌, ◌%◌, ◌^◌, ◌≤◌, ◌<◌, ◌≡◌, ◌≢◌, ◌⊎◌, inl, inr, Bool, true, false, Option, none, some,
  ◌==◌, arith, Bool-cases,
}
use mishegos.Slots.{InputSlot}
use mishegos.Gen.{Gen, ◌>>=◌, pure}
use mishegos.Fuzzer.Worker.{InputChunk, mishegos_num_chunks}
use mishegos.Fuzzer.Fill.{Filling, Ring, advance, publish, fill, fill_next}
use mishegos.Fuzzer.Loop.Round.{advance_lem}
use mishegos.Fuzzer.System.Stamps.{stamp, jobs}

-- The last chunks that were handed over are those with the numbers below `published`, one at each index.
-- `main` hands over a chunk in each round until its last one, and goes round once more.
pub record Round (chunks : ℕ → InputChunk) (gen idx exit_idx published : ℕ) : Type 0 where
  pub inside : idx < mishegos_num_chunks
  pub started : 1 ≤ gen
  pub small : gen < 2 ^ 32
  pub ahead : published + 16 ≤ gen * 16 + idx
  pub near : gen * 16 + idx ≤ published + 31
  pub filling : (exit_idx == mishegos_num_chunks) ≡ true → published + 16 ≡ gen * 16 + idx
  pub leaving : (exit_idx == mishegos_num_chunks) ≡ false → (published + 15) % 16 ≡ exit_idx
  pub stamps :
      (j : ℕ)
      → j < mishegos_num_chunks
      → (published ≤ stamp chunks j) × (stamp chunks j < published + 16)
  pub sizes : (j : ℕ) → (chunks j).input_count < 2 ^ 32

-- The chunk that `main` comes to is the one of the generation before.
pub at-idx :
    (chunks : ℕ → InputChunk) (gen idx exit_idx published : ℕ)
    → Round chunks gen idx exit_idx published
    → (chunks idx).generation + 1 ≡ gen
at-idx chunks gen idx exit_idx published r =
    let (low, high) = r.stamps idx r.inside in omega (arith, low, high, r.inside, r.ahead, r.near)

pub advance-next :
    (r : Ring)
    → r.idx < mishegos_num_chunks
    → r.gen + 1 < 2 ^ 32
    → ((advance r).idx < mishegos_num_chunks)
      × ((advance r).gen * 16 + (advance r).idx ≡ r.gen * 16 + r.idx + 1)
      × ((advance r).gen < 2 ^ 32)
      × (r.gen ≤ (advance r).gen)
unfolding advance
advance-next r inside bound = elim (Bool-cases (r.idx + 1 == mishegos_num_chunks)) [
  | inl last ↦ rw last (omega arith, ground arith, omega arith, omega arith)
  | inr inner ↦ rw inner (ground arith, omega arith, omega arith, omega arith)
]

-- Chunks that hold the same work.
pub Round-jobs :
    (chunks : ℕ → InputChunk) (gen idx exit_idx published : ℕ)
    → Round chunks gen idx exit_idx published
    → Round (jobs chunks) gen idx exit_idx published
Round-jobs chunks gen idx exit_idx published r = record {
  inside = r.inside;
  started = r.started;
  small = r.small;
  ahead = r.ahead;
  near = r.near;
  filling = r.filling;
  leaving = r.leaving;
  stamps = r.stamps;
  sizes = r.sizes;
}

pub Round-unjobs :
    (chunks : ℕ → InputChunk) (gen idx exit_idx published : ℕ)
    → Round (jobs chunks) gen idx exit_idx published
    → Round chunks gen idx exit_idx published
Round-unjobs chunks gen idx exit_idx published r = record {
  inside = r.inside;
  started = r.started;
  small = r.small;
  ahead = r.ahead;
  near = r.near;
  filling = r.filling;
  leaving = r.leaving;
  stamps = r.stamps;
  sizes = r.sizes;
}

pub advance-Round :
    (r : Ring) (published : ℕ)
    → Round r.input_chunks r.gen r.idx r.exit_idx published
    → (r.exit_idx == mishegos_num_chunks) ≡ false
    → (r.idx == r.exit_idx) ≡ false
    → r.gen + 1 < 2 ^ 32
    → Round (advance r).input_chunks (advance r).gen (advance r).idx (advance r).exit_idx published
advance-Round r published v leaving on bound =
    let (_, ee, ec, _) = advance_lem r in
    let (inside, next, small, later) = advance-next r v.inside bound in
    let last = v.leaving leaving in
    rw (ee, ec)
      (record {
        inside = inside;
        started = omega (arith, v.started, later);
        small = small;
        ahead = omega (arith, next, v.ahead);
        near =
            let apart : r.idx ≢ r.exit_idx = ground arith in
            omega (arith, next, v.near, v.inside, last, apart);
        filling = λ f. absurd (cc (f, leaving));
        leaving = v.leaving;
        stamps = v.stamps;
        sizes = v.sizes;
      })

pub publish-Round :
    (nworkers : ℕ) (f : Filling) (r : Ring) (published : ℕ)
    → Round r.input_chunks r.gen r.idx r.exit_idx published
    → (r.exit_idx == mishegos_num_chunks) ≡ true
    → r.gen + 1 < 2 ^ 32
    → let q : Ring = advance (publish nworkers f r) in
      Round q.input_chunks q.gen q.idx q.exit_idx (published + 1)
unfolding publish
publish-Round nworkers f r published v filling bound =
    let p = publish nworkers f r in
    let (_, ee, ec, _) = advance_lem p in
    let (inside, next, small, later) = advance-next p v.inside bound in
    let here = v.filling filling in
    rw (ee, ec)
      (record {
        inside = inside;
        started = omega (arith, v.started, later);
        small = small;
        ahead = omega (arith, next, here);
        near = omega (arith, next, here);
        filling = λ _. omega (arith, next, here);
        leaving = λ ends. elim (Bool-cases f.exhausted) [
          | inl gone ↦ rw gone (omega (arith, here, v.inside))
          | inr more ↦ let still = rw more at ends in absurd (cc (still, filling))
        ];
        stamps = λ j within.
            let (low, high) = v.stamps j within in
            elim (Bool-cases (j == r.idx)) [
              | inl at ↦
                  let same : j ≡ r.idx = ground arith in
                  rw at (omega (arith, here, same, v.small), omega (arith, here, same, v.small))
              | inr other ↦
                  let apart : j ≢ r.idx = ground arith in
                  rw other (omega (arith, low, here, within, v.inside, apart), omega (arith, high))
            ];
        sizes = λ j. elim (Bool-cases (j == r.idx)) [
          | inl at ↦ rw at (omega arith)
          | inr other ↦ rw other (v.sizes j)
        ];
      })

bind-some :
    {S A B : Type 0} (m : Gen S A) (f : A → Gen S B) (s : S) (r : B × S)
    → (m >>= f) s ≡ some r
    → (a : A) × (s' : S) × (f a s' ≡ some r)
bind-some {S} {A} {B} m f s r e = by_result (m s) e
  where
    by_result :
        (o : Option (A × S))
        → elim o [ none ↦ none | some (a, s') ↦ f a s' ] ≡ some r
        → (a : A) × (s' : S) × (f a s' ≡ some r)
    by_result none e = absurd (cc)
    by_result (some (a, s')) e = (a, s', e)

-- A round fills the chunk and hands it over, or only goes on.
pub fill_next-cases :
    {S : Type 0} (mutator : InputSlot → Gen S (Bool × InputSlot)) (nworkers : ℕ) (r r' : Ring)
    (s s' : S)
    → fill_next mutator nworkers r s ≡ some (r', s')
    → (((r.exit_idx == mishegos_num_chunks) ≡ true)
        × ((f : Filling) × (r' ≡ advance (publish nworkers f r))))
      ⊎ (((r.exit_idx == mishegos_num_chunks) ≡ false) × (r' ≡ advance r))
unfolding fill_next
fill_next-cases {S} mutator nworkers r r' s s' e =
    elim (Bool-cases (r.exit_idx == mishegos_num_chunks)) [
      | inr leaving ↦
          let done : some (advance r, s) ≡ some (r', s') = rw leaving at e in
          let same : r' ≡ advance r = cc (done) in inr (leaving, same)
      | inl filling ↦
          let (f, s'', done) : (f : Filling) × (s'' : S) × (some
                  (advance (publish nworkers f r), s'')
                ≡ some (r', s')) =
            bind-some (fill mutator (r.input_chunks r.idx).inputs)
              (λ f. pure (advance (publish nworkers f r))) s (r', s') (rw filling at e) in
          let same : r' ≡ advance (publish nworkers f r) = cc (done) in inl (filling, (f, same))
    ]
