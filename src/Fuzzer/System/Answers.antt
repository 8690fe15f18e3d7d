-- ===== src/Fuzzer/System/Answers.antt =====
-- src/mishegos/mishegos.c: what `main` finds in the workers' outputs when it comes to a chunk.
use mishegos.Base.{
  ℕ, ◌+◌, ◌^◌, ◌≤◌, ◌<◌, ◌≡◌, refl, sym, ap, ◌∙◌, subst, Bool, false, true, some, ◌==◌, arith,
  Bool-cases, inl, inr,
}
use mishegos.Slots.{InputSlot, OutputSlot, mishegos_max_nworkers}
use mishegos.Gen.{Gen}
use mishegos.Fuzzer.Worker.{Shared, Decoding, update, to_u32, sigchld_handler, restart}
use mishegos.Fuzzer.Crew.{Crew, view, put, worker_for_pid, handle_pid, restart_workers}
use mishegos.Fuzzer.Crew.Counts.{crash-count, handler-count, restart-count}
use mishegos.Fuzzer.System.{Position, Move, System, chunk, with_worker, work, Gone, Reaches}
use mishegos.Fuzzer.System.Stamps.{jobs, Words}
use mishegos.Fuzzer.System.Fit.{Answered, Answered-unjob, Fit}
use mishegos.Fuzzer.System.Moves.{Good, work-Good}
use mishegos.Fuzzer.System.Signals.{handler-Still, restart-Still}
use mishegos.Fuzzer.System.Round.{at-idx}
use mishegos.Fuzzer.System.Invariant.{Inv, move-Inv, still-Inv, finish-Inv, all-done}
use mishegos.Fuzzer.System.Start.{start-Inv}
use mishegos.Fuzzer.System.Handover.{rounds-Inv}

module _ (try_decode : ℕ → OutputSlot → InputSlot → Decoding) (n : ℕ) (few : n ≤ 31) where
  -- The generations stay below 2 ^ 32.
  served-bound : (sys : System) (i : ℕ) → Inv try_decode n sys → i < n → sys.served i + 16 < 2 ^ 36
  served-bound sys i v lt = omega (arith, v.pace i lt, v.round.ahead, v.round.small, v.round.inside)

  moved-Good :
      (sys : System) (i : ℕ) (m : Move)
      → Inv try_decode n sys
      → i < n
      → work (try_decode i) (sys.positions i) (view sys.crew i) ≡ m
      → Good (try_decode i) (sys.crew.workers i).pid (sys.served i) (view sys.crew i) m
  moved-Good sys i m v lt e =
      subst (Good (try_decode i) (sys.crew.workers i).pid (sys.served i) (view sys.crew i)) e (
        work-Good (try_decode i) (sys.crew.workers i).pid (sys.served i) (view sys.crew i)
          (sys.positions i) (v.fits i lt) v.round.sizes (served-bound sys i v lt))

  dies-Inv :
      (sys : System) (i g x : ℕ) (s : Shared)
      → Inv try_decode n sys
      → i < n
      → work (try_decode i) (sys.positions i) (view sys.crew i) ≡ Move.dies g x s
      → Inv try_decode n (with_worker i (sys.crew.workers i).pid s (Position.dead g x) sys)
  unfolding Good
  dies-Inv sys i g x s v lt e =
      let (same, u, fit) = moved-Good sys i (Move.dies g x s) v lt e in
      still-Inv try_decode n sys i (sys.crew.workers i).pid s (Position.dead g x) v lt
        (ap jobs same) (subst Words (sym same) v.words) fit
        (λ j. crash-count i (sys.crew.workers i).pid j 0 s sys.crew (omega arith) same u)

  finishes-Inv :
      (sys : System) (i g x : ℕ) (s : Shared)
      → Inv try_decode n sys
      → i < n
      → work (try_decode i) (sys.positions i) (view sys.crew i) ≡ Move.finishes g x s
      → Inv try_decode n
          (record (with_worker i (sys.crew.workers i).pid s (Position.counted g x) sys) {
            served = update sys.served i (sys.served i + 1);
          })
  unfolding Good
  finishes-Inv sys i g x s v lt e =
      let (handed, inside, less, u, fit) = moved-Good sys i (Move.finishes g x s) v lt e in
      finish-Inv try_decode n sys i (sys.crew.workers i).pid g x s few v lt handed inside less u fit

  leaves-Inv :
      (sys : System) (i : ℕ) (p : Position)
      → Inv try_decode n sys
      → i < n
      → work (try_decode i) (sys.positions i) (view sys.crew i) ≡ Move.leaves p
      → Inv try_decode n (record sys { positions = update sys.positions i p })
  unfolding Good
  leaves-Inv sys i p v lt e = record {
    round = v.round;
    fits = λ k within. elim (Bool-cases (k == i)) [
      | inl here ↦
          let same : k ≡ i = ground arith in
          let now : Fit (try_decode i) (jobs (chunk sys)) (sys.crew.workers i) p (sys.served i) =
            moved-Good sys i (Move.leaves p) v lt e in
          rw here (
            subst
              (λ (m : ℕ).
                Fit (try_decode m) (jobs (chunk sys)) (sys.crew.workers m) p (sys.served m))
              (sym same) now)
      | inr other ↦ rw other (v.fits k within)
    ];
    pace = v.pace;
    counts = v.counts;
    words = v.words;
    unused = v.unused;
  }

  reported-Inv :
      (sys : System) (c : Crew) (pid i : ℕ)
      → Inv try_decode n sys
      → i < n
      → worker_for_pid sys.crew.workers pid ≡ some i
      → Gone (sys.positions i)
      → (sys.crew.workers i).sigchld ≡ false
      → handle_pid pid sys.crew ≡ some c
      → Inv try_decode n (record sys { crew = c })
  unfolding handle_pid
  reported-Inv sys c pid i v lt found gone unmarked e =
      let s = sigchld_handler (view sys.crew i) in
      let here : put i (sys.crew.workers i).pid s sys.crew ≡ c =
        let handled : some (put i (sys.crew.workers i).pid s sys.crew) ≡ some c = rw found at e in
        cc in
      let (same, words, fit) =
        handler-Still (try_decode i) (sys.served i) (view sys.crew i) (sys.crew.workers i).pid
          (sys.positions i) v.round.sizes (v.fits i lt) gone unmarked in
      subst (λ (d : Crew). Inv try_decode n (record sys { crew = d })) here
        (move-Inv try_decode n sys i (sys.crew.workers i).pid s sys.positions sys.served v lt same
          (words v.words) fit (λ k within other. refl) (λ k within other. refl) (v.pace i lt)
          (λ j within.
            handler-count i (sys.crew.workers i).pid j 0 sys.crew (omega arith) unmarked
            ∙ v.counts j within))

  restarted-Inv :
      (sys : System) (i pid : ℕ)
      → Inv try_decode n sys
      → i < n
      → (sys.crew.workers i).sigchld ≡ true
      → Inv try_decode n (
          with_worker i pid
            (restart (view sys.crew i))
            (Position.at (to_u32 (sys.crew.workers i).start_gen) (sys.crew.workers i).start_idx)
            sys)
  restarted-Inv sys i pid v lt marked =
      let (same, words, fit) =
        restart-Still (try_decode i) (sys.served i) (view sys.crew i) (sys.crew.workers i).pid pid
          (sys.positions i) (served-bound sys i v lt) (v.fits i lt) marked in
      still-Inv try_decode n sys i pid (restart (view sys.crew i)) _ v lt same (words v.words) fit
        (λ j. restart-count i pid j 0 sys.crew (omega arith) marked)

  module _ {S : Type 0} (mutator : InputSlot → Gen S (Bool × InputSlot)) (pids : ℕ → ℕ)
      (loaded : ℕ → Bool) where
    pub Reaches-Inv :
        (sys : System) → Reaches try_decode mutator n pids loaded sys → Inv try_decode n sys
    Reaches-Inv sys Reaches.begin = start-Inv try_decode n pids loaded
    Reaches-Inv sys (Reaches.finishes {sys = b} i gen idx s before lt e) =
        finishes-Inv b i gen idx s (Reaches-Inv b before) lt e
    Reaches-Inv sys (Reaches.dies {sys = b} i gen idx s before lt e) =
        dies-Inv b i gen idx s (Reaches-Inv b before) lt e
    Reaches-Inv sys (Reaches.leaves {sys = b} i p before lt e) =
        leaves-Inv b i p (Reaches-Inv b before) lt e
    Reaches-Inv sys (Reaches.reported {sys = b} {c = c} pid i before lt found gone unmarked e) =
        reported-Inv b c pid i (Reaches-Inv b before) lt found gone unmarked e
    Reaches-Inv sys (Reaches.restarted {sys = b} i pid before lt marked) =
        restarted-Inv b i pid (Reaches-Inv b before) lt marked
    Reaches-Inv sys (Reaches.rounds {sys = b} {r = r} fork s s' before waited quiet on bound e) =
        rounds-Inv try_decode n few b fork (Reaches-Inv b before) waited quiet bound mutator r s s'
          on e

-- Whatever order the moves of `main`, of the workers and of the handler come in, and however often workers die: when `main` has
-- waited for a chunk, its pass over the workers starts none again, and it is past its first generation,
-- the chunk is the one that it handed over in the generation before, and each worker in use has an
-- output for each of its inputs: what its decoder left for the input, with the mark of a crash where the
-- decoder died in it. There are at most 31 workers, and the generations stay below 2 ^ 32.
pub Reaches-Answered :
    {S : Type 0} (try_decode : ℕ → OutputSlot → InputSlot → Decoding)
    (mutator : InputSlot → Gen S (Bool × InputSlot)) (nworkers : ℕ) (pids fork : ℕ → ℕ)
    (loaded : ℕ → Bool) (sys : System)
    → nworkers ≤ mishegos_max_nworkers
    → Reaches try_decode mutator nworkers pids loaded sys
    → (chunk sys sys.idx).remaining_workers ≡ 0
    → (restart_workers fork nworkers 0 sys.crew).0 ≡ false
    → 2 ≤ sys.gen
    → ((chunk sys sys.idx).generation + 1 ≡ sys.gen)
      × ((i : ℕ)
          → i < nworkers
          → Answered
              (try_decode i)
              (chunk sys sys.idx)
              (chunk sys sys.idx).input_count
              ((sys.crew.workers i).output_chunks sys.idx).outputs)
Reaches-Answered try_decode mutator nworkers pids fork loaded sys few reached waited quiet later =
    let v = Reaches-Inv try_decode nworkers few mutator pids loaded sys reached in
    let before = at-idx _ _ _ _ _ v.round in
    (
      before,
      λ i lt.
          let done = all-done try_decode nworkers sys fork few v waited quiet i lt in
          let inside = v.round.inside in
          let behind = (v.fits i lt).behind sys.idx inside (omega (arith, before, later)) done in
          Answered-unjob (try_decode i) (chunk sys sys.idx) _ _ behind,
    )
