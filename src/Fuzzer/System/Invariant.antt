-- ===== src/Fuzzer/System/Invariant.antt =====
-- src/mishegos/mishegos.c: what holds whenever `main` and the workers are between two moves.
use mishegos.Base.{
  ℕ, ◌+◌, ◌≤◌, ◌<◌, ◌≡◌, refl, sym, ap, ◌∙◌, subst, inl, inr, true, false, leb, ◌==◌, arith,
  Bool-cases, ==_iff,
}
use mishegos.Slots.{InputSlot, OutputSlot}
use mishegos.Fuzzer.Worker.{
  InputChunk, Shared, Decoding, update, to_u32, add_workers, minus_one, mishegos_num_chunks,
}
use mishegos.Fuzzer.Crew.{view, put, restart_workers}
use mishegos.Fuzzer.Crew.Flags.{Unmarked, flags, flags-quiet}
use mishegos.Fuzzer.Crew.Counts.{count, finish-count}
use mishegos.Fuzzer.Crew.Interleaving.{restart_workers-quiet}
use mishegos.Fuzzer.System.{Position, System, chunk, with_worker, work}
use mishegos.Fuzzer.System.Stamps.{
  stamp, jobs, jobs-add_workers, Words, Words-update, due-next, due-other, stamp-apart, dues,
  dues-update, dues-zero, dues-le,
}
use mishegos.Fuzzer.System.Fit.{worker_of, Fit, Fit-update}
use mishegos.Fuzzer.System.Round.{Round}

module _ (try_decode : ℕ → OutputSlot → InputSlot → Decoding) (n : ℕ) where
  -- Each worker fits, none is more than a round of the ring behind, each chunk's count is that of the
  -- workers that owe it, and only workers in use wait for their restart.
  pub record Inv (sys : System) : Type 0 where
    pub round : Round (jobs (chunk sys)) sys.gen sys.idx sys.exit_idx sys.published
    pub fits :
        (i : ℕ)
        → i < n
        → Fit
            (try_decode i)
            (jobs (chunk sys))
            (sys.crew.workers i)
            (sys.positions i)
            (sys.served i)
    pub pace :
        (i : ℕ) → i < n → (sys.served i ≤ sys.published) × (sys.published ≤ sys.served i + 16)
    pub counts :
        (j : ℕ)
        → j < mishegos_num_chunks
        → count sys.crew 0 j ≡ to_u32 (dues sys.served (stamp (jobs (chunk sys)) j) n)
    pub words : Words (chunk sys)
    pub unused : (i : ℕ) → n ≤ i → (sys.crew.workers i).sigchld ≡ false

  -- A move of one worker that leaves the work in the chunks as it is.
  pub move-Inv :
      (sys : System) (i pid : ℕ) (s : Shared) (positions : ℕ → Position) (served : ℕ → ℕ)
      → Inv sys
      → i < n
      → jobs s.input_chunks ≡ jobs (chunk sys)
      → Words s.input_chunks
      → Fit (try_decode i) (jobs (chunk sys)) (worker_of pid s) (positions i) (served i)
      → ((k : ℕ) → k < n → (k == i) ≡ false → positions k ≡ sys.positions k)
      → ((k : ℕ) → k < n → (k == i) ≡ false → served k ≡ sys.served k)
      → ((served i ≤ sys.published) × (sys.published ≤ served i + 16))
      → ((j : ℕ)
          → j < mishegos_num_chunks
          → count (put i pid s sys.crew) 0 j ≡ to_u32 (dues served (stamp (jobs (chunk sys)) j) n))
      → Inv (record sys { crew = put i pid s sys.crew; positions = positions; served = served })
  move-Inv sys i pid s positions served v lt work words fit at times pace counts = record {
    round =
        subst (λ (cs : ℕ → InputChunk). Round cs sys.gen sys.idx sys.exit_idx sys.published)
          (sym work) v.round;
    fits = λ k within.
        subst
          (λ (cs : ℕ → InputChunk).
            Fit (try_decode k) cs (update sys.crew.workers i (worker_of pid s) k) (positions k)
              (served k))
          (sym work)
          (Fit-update try_decode (jobs (chunk sys)) sys.crew.workers positions served
            (worker_of pid s) i n
            (λ m inside other. rw (at m inside other, times m inside other) (v.fits m inside)) fit k
            within);
    pace = λ k within. elim (Bool-cases (k == i)) [
      | inl here ↦
          let same : k ≡ i = ground arith in
          subst (λ (m : ℕ). (served m ≤ sys.published) × (sys.published ≤ served m + 16)) (sym same)
            pace
      | inr other ↦ rw (times k within other) (v.pace k within)
    ];
    counts = λ j within.
        subst
          (λ (cs : ℕ → InputChunk).
            count (put i pid s sys.crew) 0 j ≡ to_u32 (dues served (stamp cs j) n))
          (sym work) (counts j within);
    words = words;
    unused = λ k past. let other : (k == i) ≡ false = ground arith in rw other (v.unused k past);
  }

  -- So does one that changes no count.
  pub still-Inv :
      (sys : System) (i pid : ℕ) (s : Shared) (p : Position)
      → Inv sys
      → i < n
      → jobs s.input_chunks ≡ jobs (chunk sys)
      → Words s.input_chunks
      → Fit (try_decode i) (jobs (chunk sys)) (worker_of pid s) p (sys.served i)
      → ((j : ℕ) → count (put i pid s sys.crew) 0 j ≡ count sys.crew 0 j)
      → Inv (with_worker i pid s p sys)
  still-Inv sys i pid s p v lt work words fit same =
      let here : (i == i) ≡ true = (==_iff i i).1 refl in
      move-Inv sys i pid s (update sys.positions i p) sys.served v lt work words (rw here fit)
        (λ k within other. rw other refl) (λ k within other. refl) (v.pace i lt)
        (λ j within. same j ∙ v.counts j within)

  balance :
      (a a' d d' m : ℕ)
      → to_u32 (a' + m) ≡ to_u32 (a + 0)
      → to_u32 (a + 0) ≡ to_u32 d
      → d' + m ≡ d
      → to_u32 (a' + 0) ≡ to_u32 d'
  balance a a' d d' m e f g = omega arith

  -- A worker that ends a chunk.
  pub finish-Inv :
      (sys : System) (i pid g x : ℕ) (s : Shared)
      → n ≤ 31
      → Inv sys
      → i < n
      → stamp (chunk sys) x ≡ sys.served i + 16
      → x < mishegos_num_chunks
      → s.input_chunks ≡ update (chunk sys) x (add_workers minus_one (chunk sys x))
      → Unmarked (view sys.crew i) s
      → Fit
          (try_decode i)
          (jobs (chunk sys))
          (worker_of pid s)
          (Position.counted g x)
          (sys.served i + 1)
      → Inv (record (with_worker i pid s (Position.counted g x) sys) {
        served = update sys.served i (sys.served i + 1);
      })
  finish-Inv sys i pid g x s few v lt handed inside e u fit =
      let here : (i == i) ≡ true = (==_iff i i).1 refl in
      let bounds : stamp (chunk sys) x < sys.published + 16 = (v.round.stamps x inside).1 in
      move-Inv sys i pid s (update sys.positions i (Position.counted g x))
        (update sys.served i (sys.served i + 1)) v lt
        (ap jobs e ∙ jobs-add_workers (chunk sys) minus_one x)
        (subst Words (sym e) (Words-update (chunk sys) x _ v.words (omega arith))) (rw here fit)
        (λ k within other. rw other refl) (λ k within other. rw other refl)
        (rw here (omega (arith, handed, bounds), omega (arith, v.pace i lt)))
        λ j within.
          let moved = dues-update sys.served (sys.served i + 1) i (stamp (chunk sys) j) n lt in
          let counted = finish-count i pid j x (λ k. 0) s sys.crew (omega arith) e u in
          let before = v.counts j within in
          elim (Bool-cases (j == x)) [
            | inl same ↦
                let at : j ≡ x = ground arith in
                let now : stamp (chunk sys) j ≡ sys.served i + 16 =
                  ap (stamp (chunk sys)) at ∙ handed in
                balance _ _ _ _ 1 (rw same at counted) before (
                  let (owed, done) = due-next (sys.served i) (stamp (chunk sys) j) now in
                  omega (arith, moved, owed, done))
            | inr other ↦ balance _ _ _ _ 0 (rw other at counted) before (
                let off = stamp-apart (chunk sys) j x _ within inside other handed in
                let same = due-other (sys.served i) (stamp (chunk sys) j) off in
                omega (arith, moved, same))
          ]

  -- After a pass that starts no worker again, none waits for its restart.
  pub no-flags :
      (sys : System) (fork : ℕ → ℕ)
      → Inv sys
      → (restart_workers fork n 0 sys.crew).0 ≡ false
      → (j : ℕ) → flags sys.crew.workers j 31 ≡ 0
  no-flags sys fork v quiet j = flags-quiet sys.crew.workers j 31 λ k. elim (Bool-cases (leb n k)) [
    | inl behind ↦ v.unused k (ground arith)
    | inr inside ↦ restart_workers-quiet fork n 0 sys.crew quiet k (omega arith) (ground arith)
  ]

  -- No worker is left in the chunk that `main` waited for, if its pass over the workers starts none again.
  pub all-done :
      (sys : System) (fork : ℕ → ℕ)
      → n ≤ 31
      → Inv sys
      → (chunk sys sys.idx).remaining_workers ≡ 0
      → (restart_workers fork n 0 sys.crew).0 ≡ false
      → (i : ℕ) → i < n
      → stamp (jobs (chunk sys)) sys.idx < sys.served i + 16
  all-done sys fork few v waited quiet i lt =
      let none = no-flags sys fork v quiet sys.idx in
      let before = v.counts sys.idx v.round.inside in
      let bound = dues-le sys.served (stamp (jobs (chunk sys)) sys.idx) n in
      dues-zero sys.served (stamp (jobs (chunk sys)) sys.idx) n i
        (omega (arith, none, before, bound, waited)) lt
