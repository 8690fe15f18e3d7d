-- ===== src/Fuzzer/Crew/Counts.antt =====
-- src/mishegos/mishegos.c: the counts of the workers that are not done with a chunk.
use mishegos.Base.{
  ℕ, zero, suc, ◌+◌, ◌≤◌, ◌<◌, ◌≡◌, refl, sym, ap, ◌∙◌, Bool, true, false, ◌==◌, if◌then◌else◌,
  arith, Bool-cases, inl, inr,
}
use mishegos.Fuzzer.Worker.{
  InputChunk, Shared, update, to_u32, add_workers, minus_one, note_crash, sigchld_handler, restart,
}
use mishegos.Fuzzer.Crew.{Worker, Crew, view, put, restart_workers}
use mishegos.Fuzzer.Crew.Flags.{mark, flag, flags, flags-update, sigchld_handler-cases, Unmarked}

-- The count of chunk `j`, with the workers that the handler took off it, as a uint32_t.
abbrev pub count : Crew → ℕ → ℕ → ℕ
count c more j = to_u32 ((c.input_chunks j).remaining_workers + flags c.workers j 31 + more)

-- Replacing the part of one worker, when the sum for chunk `j` is the same.
put-count :
    (i pid j more more' : ℕ) (s : Shared) (c : Crew)
    → i < 31
    → to_u32 ((s.input_chunks j).remaining_workers + mark j s.sigchld s.start_idx + more')
      ≡ to_u32 (
          (c.input_chunks j).remaining_workers
          + mark j (c.workers i).sigchld (c.workers i).start_idx
          + more)
    → count (put i pid s c) more' j ≡ count c more j
unfolding flag
put-count i pid j more more' s c lt e =
    let w : Worker = record {
      pid = pid;
      output_chunks = s.output_chunks;
      start_gen = s.start_gen;
      start_idx = s.start_idx;
      sigchld = s.sigchld;
    } in
    cancel _ _ _ _ _ _ _ _ (flags-update c.workers w i j 31 lt) e
  where
    cancel :
        (r r' old new more more' F F' : ℕ)
        → F' + old ≡ F + new
        → to_u32 (r' + new + more') ≡ to_u32 (r + old + more)
        → to_u32 (r' + F' + more') ≡ to_u32 (r + F + more)
    cancel r r' old new more more' F F' sum e = omega arith

-- Adding to the count of one chunk.
remaining-update :
    (ics : ℕ → InputChunk) (widx d j : ℕ)
    → (update ics widx (add_workers d (ics widx)) j).remaining_workers
      ≡ (if j == widx then to_u32 ((ics j).remaining_workers + d) else (ics j).remaining_workers)
remaining-update ics widx d j = elim (Bool-cases (j == widx)) [
  | inl here ↦
      let at : j ≡ widx = ground arith in
      rw here (ap (λ (k : ℕ). to_u32 ((ics k).remaining_workers + d)) (sym at))
  | inr other ↦ rw other refl
]

-- A crash that the handler notes.
noted-count :
    (i pid j more widx : ℕ) (c : Crew)
    → i < 31
    → (c.workers i).sigchld ≡ false
    → count (put i pid (note_crash widx (view c i)) c) more j ≡ count c more j
unfolding note_crash
noted-count i pid j more widx c lt unmarked =
    let r = (c.input_chunks j).remaining_workers in
    let less = remaining-update c.input_chunks widx minus_one j in
    put-count i pid j more more (note_crash widx (view c i)) c lt (
      rw (less, unmarked)
        (elim (Bool-cases (j == widx)) [
          | inl here ↦ rw here (omega arith)
          | inr other ↦ rw other refl
        ]))

-- A worker that the handler took off is counted again when it is started again.
pub restart-count :
    (i pid j more : ℕ) (c : Crew)
    → i < 31
    → (c.workers i).sigchld ≡ true
    → count (put i pid (restart (view c i)) c) more j ≡ count c more j
unfolding restart
restart-count i pid j more c lt marked =
    let back = remaining-update c.input_chunks (c.workers i).start_idx 1 j in
    put-count i pid j more more (restart (view c i)) c lt (
      rw (marked, back)
        (elim (Bool-cases (j == (c.workers i).start_idx)) [
          | inl here ↦ rw here (omega arith)
          | inr other ↦ rw other refl
        ]))

-- A worker that ends a chunk.
pub finish-count :
    (i pid j idx : ℕ) (finished : ℕ → ℕ) (s : Shared) (c : Crew)
    → i < 31
    → s.input_chunks ≡ update c.input_chunks idx (add_workers minus_one (c.input_chunks idx))
    → Unmarked (view c i) s
    → count (put i pid s c) (update finished idx (finished idx + 1) j) j ≡ count c (finished j) j
finish-count i pid j idx finished s c lt e u =
    let less =
      ap (λ (ics : ℕ → InputChunk). (ics j).remaining_workers) e
      ∙ remaining-update c.input_chunks idx minus_one j in
    put-count i pid j (finished j) (update finished idx (finished idx + 1) j) s c lt (
      rw (less, u.sigchld, u.start_idx)
        (elim (Bool-cases (j == idx)) [
          | inl here ↦
              let at : j ≡ idx = ground arith in
              let times : finished idx ≡ finished j = ap finished (sym at) in
              rw (here, times) (omega arith)
          | inr other ↦ rw other refl
        ]))

-- A worker that dies.
pub crash-count :
    (i pid j more : ℕ) (s : Shared) (c : Crew)
    → i < 31
    → s.input_chunks ≡ c.input_chunks
    → Unmarked (view c i) s
    → count (put i pid s c) more j ≡ count c more j
crash-count i pid j more s c lt e u =
    put-count i pid j more more s c lt (rw (e, u.sigchld, u.start_idx) refl)

pub handler-count :
    (i pid j more : ℕ) (c : Crew)
    → i < 31
    → (c.workers i).sigchld ≡ false
    → count (put i pid (sigchld_handler (view c i)) c) more j ≡ count c more j
handler-count i pid j more c lt unmarked = elim (sigchld_handler-cases (view c i)) [
  | inl nothing ↦ rw nothing (put-count i pid j more more (view c i) c lt refl)
  | inr (widx, noted) ↦ rw noted (noted-count i pid j more widx c lt unmarked)
]

pub restart_workers-count :
    (fork : ℕ → ℕ) (n i j more : ℕ) (c : Crew)
    → i + n ≤ 31
    → count (restart_workers fork n i c).1 more j ≡ count c more j
unfolding restart_workers
restart_workers-count fork zero i j more c le = refl
restart_workers-count fork (suc n) i j more c le =
    let c' = put i (fork i) (restart (view c i)) c in
    let again = restart_workers fork n (i + 1) c' in
    let others = restart_workers fork n (i + 1) c in
    let branch = λ (b : Bool). count (if b then (true, again.1) else others).1 more j in
    elim (Bool-cases (c.workers i).sigchld) [
      | inl marked ↦
          ap branch marked
          ∙ restart_workers-count fork n (i + 1) j more c' (omega arith)
          ∙ restart-count i (fork i) j more c (omega arith) marked
      | inr unmarked ↦
          ap branch unmarked ∙ restart_workers-count fork n (i + 1) j more c (omega arith)
    ]
