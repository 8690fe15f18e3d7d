-- ===== src/Fuzzer/System/Unloaded.antt =====
-- src/mishegos/mishegos.c: a worker whose shared object is not loaded.
use mishegos.Base.{
  ℕ, ◌≤◌, ◌<◌, ◌≡◌, refl, sym, ap, ◌∙◌, subst, List, [], Bool, false, ◌==◌, arith, Bool-cases, inl,
  inr,
}
use mishegos.Slots.{InputSlot, OutputSlot, mishegos_max_nworkers}
use mishegos.Gen.{Gen}
use mishegos.Fuzzer.Worker.{Decoding}
use mishegos.Fuzzer.Crew.{view, restart_workers}
use mishegos.Fuzzer.Process.{WorkerSlot}
use mishegos.Fuzzer.Loop.{ready}
use mishegos.Fuzzer.System.{
  Position, Move, System, chunk, ring_of, work, enter, start_system, Reaches,
}
use mishegos.Fuzzer.System.Fit.{Stands, Resting}
use mishegos.Fuzzer.System.Round.{at-idx}
use mishegos.Fuzzer.System.Invariant.{all-done}
use mishegos.Fuzzer.System.Answers.{Reaches-Inv}

-- The worker has left without ending a chunk.
record Held (i : ℕ) (sys : System) : Type 0 where
  place : sys.positions i ≡ Position.ended
  none : sys.served i ≡ 0

-- A worker that has left makes no move.
still-blocked :
    (try_decode : OutputSlot → InputSlot → Decoding) (sys : System) (i k : ℕ) (m : Move)
    → sys.positions i ≡ Position.ended
    → (m ≡ Move.blocked → ⊥)
    → work try_decode (sys.positions k) (view sys.crew k) ≡ m
    → (i == k) ≡ false
unfolding work
still-blocked try_decode sys i k m place moves e = elim (Bool-cases (i == k)) [
  | inl here ↦
      let same : k ≡ i = ground arith in
      let left : sys.positions k ≡ Position.ended = ap sys.positions same ∙ place in
      absurd (moves (sym e ∙ ap (λ (p : Position). work try_decode p (view sys.crew k)) left))
  | inr other ↦ other
]

module _ {S : Type 0} (try_decode : ℕ → OutputSlot → InputSlot → Decoding)
    (mutator : InputSlot → Gen S (Bool × InputSlot)) (n : ℕ) (pids : ℕ → ℕ) (loaded : ℕ → Bool)
    (few : n ≤ 31) (i : ℕ) (lt : i < n) (failed : loaded i ≡ false) where
  unsignalled :
      (sys : System)
      → Reaches try_decode mutator n pids loaded sys
      → Held i sys
      → (sys.crew.workers i).sigchld ≡ false
  unfolding Stands Resting
  unsignalled sys reached h =
      let v = Reaches-Inv try_decode n few mutator pids loaded sys reached in
      (subst (Stands (try_decode i) _ (sys.crew.workers i) (sys.served i)) h.place
        (v.fits i lt).stands).0

  Reaches-Held : (sys : System) → Reaches try_decode mutator n pids loaded sys → Held i sys
  unfolding start_system enter
  Reaches-Held sys Reaches.begin = record { place = rw failed refl; none = refl }
  Reaches-Held sys (Reaches.finishes {sys = b} k gen idx s before within e) =
      let h = Reaches-Held b before in
      let other = still-blocked (try_decode k) b i k _ h.place (λ m. absurd (cc (m))) e in
      record { place = rw other h.place; none = rw other h.none }
  Reaches-Held sys (Reaches.dies {sys = b} k gen idx s before within e) =
      let h = Reaches-Held b before in
      let other = still-blocked (try_decode k) b i k _ h.place (λ m. absurd (cc (m))) e in
      record { place = rw other h.place; none = h.none }
  Reaches-Held sys (Reaches.leaves {sys = b} k p before within e) =
      let h = Reaches-Held b before in
      let other = still-blocked (try_decode k) b i k _ h.place (λ m. absurd (cc (m))) e in
      record { place = rw other h.place; none = h.none }
  Reaches-Held sys (Reaches.reported {sys = b} pid k before within found gone unmarked e) =
      let h = Reaches-Held b before in record { place = h.place; none = h.none }
  Reaches-Held sys (Reaches.restarted {sys = b} k pid before within marked) =
      let h = Reaches-Held b before in
      let other : (i == k) ≡ false = elim (Bool-cases (i == k)) [
        | inl here ↦
            let same : i ≡ k = ground arith in
            let quiet : (b.crew.workers k).sigchld ≡ false =
              subst (λ (m : ℕ). (b.crew.workers m).sigchld ≡ false) same (unsignalled b before h) in
            absurd (cc (quiet, marked))
        | inr apart ↦ apart
      ] in
      record { place = rw other h.place; none = h.none }
  Reaches-Held sys (Reaches.rounds {sys = b} {r = r} fork s s' before waited quiet on bound e) =
      let h = Reaches-Held b before in record { place = h.place; none = h.none }

-- If dlopen does not load the shared object of one worker, then whenever the wait of `main` for a chunk
-- comes to an end and its pass over the workers starts none again, `main` is in its first generation and
-- has no sample to process, whatever the workers have left and the other processes do. There are at most
-- 31 workers.
pub Reaches-unloaded :
    {S : Type 0} (try_decode : ℕ → OutputSlot → InputSlot → Decoding)
    (mutator : InputSlot → Gen S (Bool × InputSlot)) (nworkers : ℕ) (pids : ℕ → ℕ)
    (loaded : ℕ → Bool) (i : ℕ) (sys : System) (fork : ℕ → ℕ) (answers : ℕ → List WorkerSlot)
    → nworkers ≤ mishegos_max_nworkers
    → i < nworkers
    → loaded i ≡ false
    → Reaches try_decode mutator nworkers pids loaded sys
    → (chunk sys sys.idx).remaining_workers ≡ 0
    → (restart_workers fork nworkers 0 sys.crew).0 ≡ false
    → (sys.gen ≡ 1) × (ready (ring_of sys) answers ≡ [])
unfolding ready
Reaches-unloaded try_decode mutator nworkers pids loaded i sys fork answers few lt failed reached
      waited quiet =
    let h = Reaches-Held try_decode mutator nworkers pids loaded few i lt failed sys reached in
    let v = Reaches-Inv try_decode nworkers few mutator pids loaded sys reached in
    let done = all-done try_decode nworkers sys fork few v waited quiet i lt in
    let at = at-idx _ _ _ _ _ v.round in
    let first : sys.gen ≡ 1 = omega (arith, at, done, h.none, v.round.inside) in
    (first, rw first refl)
