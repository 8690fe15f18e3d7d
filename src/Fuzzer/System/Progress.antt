-- ===== src/Fuzzer/System/Progress.antt =====
-- src/mishegos/mishegos.c: `main` and the workers do not all wait for each other.
use mishegos.Base.{
  ℕ, zero, suc, ◌+◌, ◌≤◌, ◌<◌, ◌≡◌, refl, sym, ap, ◌∙◌, ◌⊎◌, inl, inr, Bool, false, true, ◌==◌,
  if◌then◌else◌, arith, Bool-cases, ==_iff,
}
use mishegos.Slots.{InputSlot, OutputSlot, mishegos_max_nworkers}
use mishegos.Gen.{Gen}
use mishegos.Fuzzer.Worker.{Decoding, Decoded, Shared, restart}
use mishegos.Fuzzer.Crew.{Crew, view, put, restart_workers}
use mishegos.Fuzzer.System.{Position, Move, System, chunk, work, by_decoded, Reaches}
use mishegos.Fuzzer.System.Stamps.{stamp, jobs, dues-some}
use mishegos.Fuzzer.System.Fit.{Stands}
use mishegos.Fuzzer.System.Invariant.{Inv, no-flags}
use mishegos.Fuzzer.System.Answers.{Reaches-Inv}

-- A pass over the workers that starts one again has found a signal.
restart_workers-marked :
    (fork : ℕ → ℕ) (n i : ℕ) (c : Crew)
    → (restart_workers fork n i c).0 ≡ true
    → (k : ℕ) × (k < i + n) × ((c.workers k).sigchld ≡ true)
unfolding restart_workers
restart_workers-marked fork zero i c e = absurd (cc (e))
restart_workers-marked fork (suc n) i c e =
    let again = restart_workers fork n (i + 1) (put i (fork i) (restart (view c i)) c) in
    let others = restart_workers fork n (i + 1) c in
    elim (Bool-cases (c.workers i).sigchld) [
      | inl marked ↦ (i, omega arith, marked)
      | inr unmarked ↦
          let rest : others.0 ≡ true =
            sym (ap (λ (b : Bool). (if b then (true, again.1) else others).0) unmarked) ∙ e in
          let (k, lt, marked) = restart_workers-marked fork n (i + 1) c rest in
          (k, omega arith, marked)
    ]

by_decoded-moves :
    (gen idx : ℕ) (s : Shared) (d : Decoded) → by_decoded gen idx s d ≡ Move.blocked → ⊥
by_decoded-moves gen idx s (Decoded.finished oc) e = absurd (cc (e))
by_decoded-moves gen idx s (Decoded.died oc) e = absurd (cc (e))

ready-moves :
    (try_decode : OutputSlot → InputSlot → Decoding) (gen idx : ℕ) (s : Shared)
    → ((s.input_chunks idx).generation == gen) ≡ true
    → work try_decode (Position.at gen idx) s ≡ Move.blocked
    → ⊥
unfolding work
ready-moves try_decode gen idx s mine e = by_decoded-moves gen idx s _ (rw mine at e)

module _ (try_decode : ℕ → OutputSlot → InputSlot → Decoding) (sys : System) where
  -- Something can happen to a worker: it can move, its death can be reported, or it can be started again.
  pub data Awake (i : ℕ) : Type 0 where
    works : (work (try_decode i) (sys.positions i) (view sys.crew i) ≡ Move.blocked → ⊥) → Awake i
    died :
        (gen idx : ℕ)
        → sys.positions i ≡ Position.dead gen idx
        → (sys.crew.workers i).sigchld ≡ false
        → Awake i
    noted : (sys.crew.workers i).sigchld ≡ true → Awake i

  -- A worker that owes a chunk which was handed over is awake, unless it has left its loop.
  owing-Awake :
      (n i : ℕ) (p : Position)
      → Inv try_decode n sys
      → i < n
      → sys.served i < sys.published
      → sys.positions i ≡ p
      → (sys.positions i ≡ Position.ended → ⊥)
      → Stands (try_decode i) (jobs (chunk sys)) (sys.crew.workers i) (sys.served i) p
      → Awake i
  unfolding Stands work
  owing-Awake n i (Position.at g x) v lt owes e stays (quiet, number, st) =
      let inside = st.inside in
      let (low, high) = v.round.stamps x inside in
      let recent = (v.pace i lt).1 in
      let mine : ((chunk sys x).generation == g) ≡ true =
        (==_iff _ _).1 (omega (arith, low, high, number, owes, recent)) in
      works λ b.
        ready-moves (try_decode i) g x (view sys.crew i) mine
          (ap (λ (q : Position). work (try_decode i) q (view sys.crew i)) (sym e) ∙ b)
  owing-Awake n i (Position.counted g x) v lt owes e stays h = works λ b.
      let moves : work (try_decode i) (Position.counted g x) (view sys.crew i) ≡ Move.blocked =
        ap (λ (q : Position). work (try_decode i) q (view sys.crew i)) (sym e) ∙ b in
      absurd (cc (moves))
  owing-Awake n i Position.ended v lt owes e stays h = absurd (stays e)
  owing-Awake n i (Position.dead g x) v lt owes e stays (number, h) = elim h [
    | inl (quiet, c) ↦ died g x e quiet
    | inr k ↦ noted k.signalled
  ]

-- `main` and the workers never all wait for each other: as long as no worker has left its loop that owes
-- the chunk which `main` waits for, either the wait of `main` is over and its pass over the workers
-- starts none again, or some worker in use can move, or has a death to be reported, or is to be started
-- again. There are at most 31 workers, and the generations stay below 2 ^ 32.
pub Reaches-Awake :
    {S : Type 0} (try_decode : ℕ → OutputSlot → InputSlot → Decoding)
    (mutator : InputSlot → Gen S (Bool × InputSlot)) (nworkers : ℕ) (pids fork : ℕ → ℕ)
    (loaded : ℕ → Bool) (sys : System)
    → nworkers ≤ mishegos_max_nworkers
    → Reaches try_decode mutator nworkers pids loaded sys
    → ((i : ℕ)
        → i < nworkers
        → sys.positions i ≡ Position.ended
        → stamp (chunk sys) sys.idx < sys.served i + 16)
    → (((chunk sys sys.idx).remaining_workers ≡ 0)
        × ((restart_workers fork nworkers 0 sys.crew).0 ≡ false))
      ⊎ ((i : ℕ) × (i < nworkers) × Awake try_decode sys i)
Reaches-Awake try_decode mutator nworkers pids fork loaded sys few reached stays =
    let v = Reaches-Inv try_decode nworkers few mutator pids loaded sys reached in
    elim (Bool-cases (restart_workers fork nworkers 0 sys.crew).0) [
      | inl again ↦
          let (i, lt, marked) = restart_workers-marked fork nworkers 0 sys.crew again in
          inr (i, omega arith, Awake.noted marked)
      | inr quiet ↦
          let none = no-flags try_decode nworkers sys fork v quiet sys.idx in
          let same = v.counts sys.idx v.round.inside in
          elim (dues-some sys.served (stamp (jobs (chunk sys)) sys.idx) nworkers) [
            | inl served ↦
                let word = v.words sys.idx in inl (omega (arith, none, same, served, word), quiet)
            | inr (i, lt, owes) ↦
                let (low, high) = v.round.stamps sys.idx v.round.inside in
                inr (
                  i,
                  lt,
                  owing-Awake try_decode sys nworkers i (sys.positions i) v lt
                      (omega (arith, owes, high)) refl
                      (λ e. let done = stays i lt e in absurd (omega (arith, done, owes)))
                      (v.fits i lt).stands,
                )
          ]
    ]
