-- ===== src/Fuzzer/Crew/Flags.antt =====
-- src/mishegos/mishegos.c: the workers that wait for their restart, by the chunk that they died in.
use mishegos.Base.{
  ℕ, zero, suc, ◌+◌, ◌<◌, ◌≡◌, refl, ap, ◌⊎◌, Bool, true, false, some, ◌==◌, if◌then◌else◌, arith,
  Bool-cases, inl, inr, ◌∙◌, ==_iff, sum_below, sum_below-change, sum_below-zero,
}
use mishegos.Slots.{InputSlot, OutputSlot, mishegos_max_nworkers}
use mishegos.Fuzzer.Worker.{
  Shared, Decoding, Decoded, WorkerStep, update, add_workers, minus_one, note_crash, find_crash,
  sigchld_handler, worker_step, after_chunk,
}
use mishegos.Fuzzer.Crew.{Worker, find_pid, worker_for_pid}

-- 1 if a worker with these fields died in chunk `j`.
abbrev pub mark : ℕ → Bool → ℕ → ℕ
mark j true start_idx = if j == start_idx then 1 else 0
mark j false start_idx = 0

unfoldable pub flag : ℕ → Worker → ℕ
flag j w = mark j w.sigchld w.start_idx

-- The number of the first `n` workers that died in chunk `j`.
unfoldable pub flags : (ℕ → Worker) → ℕ → ℕ → ℕ
flags workers j n = sum_below (λ k. flag j (workers k)) n

pub flags-quiet :
    (workers : ℕ → Worker) (j n : ℕ)
    → ((k : ℕ) → (workers k).sigchld ≡ false)
    → flags workers j n ≡ 0
unfolding flags flag
flags-quiet workers j n h = sum_below-zero (λ k. flag j (workers k)) n (λ k. rw (h k) refl)

pub flags-update :
    (workers : ℕ → Worker) (w : Worker) (i j n : ℕ)
    → i < n
    → flags (update workers i w) j n + flag j (workers i) ≡ flags workers j n + flag j w
unfolding flags
flags-update workers w i j n lt =
    let here : (i == i) ≡ true = (==_iff i i).1 refl in
    let changed =
      sum_below-change (λ k. flag j (workers k)) (λ k. flag j (update workers i w k)) i n lt
        (λ k other. ap (λ (b : Bool). flag j (if b then w else workers k)) other) in
    changed ∙ ap (λ (b : Bool). flags workers j n + flag j (if b then w else workers i)) here

find_crash-cases :
    (n w : ℕ) (s : Shared)
    → (find_crash n w s ≡ s) ⊎ ((widx : ℕ) × (find_crash n w s ≡ note_crash widx s))
unfolding find_crash
find_crash-cases zero w s = inl refl
find_crash-cases (suc n) w s = elim (Bool-cases ((s.output_chunks w).remaining == 0)) [
  | inl quiet ↦ rw quiet (find_crash-cases n (w + 1) s)
  | inr busy ↦ inr (w, rw busy refl)
]

-- The handler finds nothing, or notes one crash.
pub sigchld_handler-cases :
    (s : Shared) → (sigchld_handler s ≡ s) ⊎ ((widx : ℕ) × (sigchld_handler s ≡ note_crash widx s))
unfolding sigchld_handler
sigchld_handler-cases s = find_crash-cases 16 0 s

find_pid-lt : (workers : ℕ → Worker) (pid n i k : ℕ) → find_pid workers pid n i ≡ some k → k < i + n
unfolding find_pid
find_pid-lt workers pid zero i k e = absurd (cc)
find_pid-lt workers pid (suc n) i k e = elim (Bool-cases ((workers i).pid == pid)) [
  | inl here ↦ let e' : some i ≡ some k = rw here at e in let same : i ≡ k = cc in omega arith
  | inr other ↦
      let e' : find_pid workers pid n (i + 1) ≡ some k = rw other at e in
      omega (arith, find_pid-lt workers pid n (i + 1) k e')
]

pub worker_for_pid-lt :
    (workers : ℕ → Worker) (pid k : ℕ)
    → worker_for_pid workers pid ≡ some k
    → k < mishegos_max_nworkers
unfolding worker_for_pid
worker_for_pid-lt workers pid k e = omega (arith, find_pid-lt workers pid 31 0 k e)

-- What a round of a worker does to the counts: one that ends its chunk takes itself off the count, one
-- that dies leaves every count, and neither touches what the handler notes.
pub record Unmarked (s s' : Shared) : Type 0 where
  pub sigchld : s'.sigchld ≡ s.sigchld
  pub start_idx : s'.start_idx ≡ s.start_idx

abbrev pub Counted : ℕ → Shared → WorkerStep → Type 0
Counted idx s (WorkerStep.next gen' idx' s') =
    (s'.input_chunks ≡ update s.input_chunks idx (add_workers minus_one (s.input_chunks idx)))
    × Unmarked s s'
Counted idx s (WorkerStep.exits s') =
    (s'.input_chunks ≡ update s.input_chunks idx (add_workers minus_one (s.input_chunks idx)))
    × Unmarked s s'
Counted idx s (WorkerStep.dies s') = (s'.input_chunks ≡ s.input_chunks) × Unmarked s s'
Counted idx s WorkerStep.waits = Unit

after_chunk-Counted :
    (gen idx : ℕ) (s : Shared) (d : Decoded) → Counted idx s (after_chunk gen idx s d)
unfolding after_chunk
after_chunk-Counted gen idx s (Decoded.died oc) =
    (refl, record { sigchld = refl; start_idx = refl })
after_chunk-Counted gen idx s (Decoded.finished oc) =
    elim (Bool-cases ((s.input_chunks idx).input_count == 4096)) [
      | inr partial ↦ rw partial (refl, record { sigchld = refl; start_idx = refl })
      | inl full ↦ elim (Bool-cases (idx + 1 == 16)) [
        | inl last ↦ rw (full, last) (refl, record { sigchld = refl; start_idx = refl })
        | inr inner ↦ rw (full, inner) (refl, record { sigchld = refl; start_idx = refl })
      ]
    ]

pub worker_step-Counted :
    (try_decode : OutputSlot → InputSlot → Decoding) (gen idx : ℕ) (s : Shared)
    → Counted idx s (worker_step try_decode gen idx s)
unfolding worker_step
worker_step-Counted try_decode gen idx s =
    elim (Bool-cases ((s.input_chunks idx).generation == gen)) [
      | inl mine ↦ rw mine (after_chunk-Counted gen idx s _)
      | inr waiting ↦ rw waiting tt
    ]
