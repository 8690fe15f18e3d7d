-- ===== src/Fuzzer/System/Complete.antt =====
-- src/mishegos/mishegos.c: `main` leaves its loop.
use mishegos.Base.{ℕ, ◌+◌, ◌*◌, ◌≤◌, ◌<◌, ◌≡◌, Bool, false, true, ◌==◌, arith}
use mishegos.Slots.{InputSlot, OutputSlot, mishegos_max_nworkers}
use mishegos.Gen.{Gen}
use mishegos.Fuzzer.Worker.{Decoding, mishegos_num_chunks}
use mishegos.Fuzzer.Crew.{restart_workers}
use mishegos.Fuzzer.System.{System, chunk, Reaches}
use mishegos.Fuzzer.System.Round.{at-idx}
use mishegos.Fuzzer.System.Invariant.{all-done}
use mishegos.Fuzzer.System.Answers.{Reaches-Inv}

-- When `main` leaves its loop, at its exit index with its wait over and no worker to start again, every
-- worker in use has ended exactly as many chunks as `main` handed over, and the chunk that `main`
-- processes there is the last one of them. There are at most 31 workers, and the generations stay below
-- 2 ^ 32.
pub Reaches-complete :
    {S : Type 0} (try_decode : ℕ → OutputSlot → InputSlot → Decoding)
    (mutator : InputSlot → Gen S (Bool × InputSlot)) (nworkers : ℕ) (pids fork : ℕ → ℕ)
    (loaded : ℕ → Bool) (sys : System)
    → nworkers ≤ mishegos_max_nworkers
    → Reaches try_decode mutator nworkers pids loaded sys
    → (chunk sys sys.idx).remaining_workers ≡ 0
    → (restart_workers fork nworkers 0 sys.crew).0 ≡ false
    → (sys.idx == sys.exit_idx) ≡ true
    → ((i : ℕ) → i < nworkers → sys.served i ≡ sys.published)
      × ((chunk sys sys.idx).generation * 16 + sys.idx ≡ sys.published + 15)
Reaches-complete try_decode mutator nworkers pids fork loaded sys few reached waited quiet last =
    let v = Reaches-Inv try_decode nworkers few mutator pids loaded sys reached in
    let r = v.round in
    let before = at-idx _ _ _ _ _ r in
    let inside = r.inside in
    let leaving : (sys.exit_idx == mishegos_num_chunks) ≡ false = ground arith in
    let exit = r.leaving leaving in
    let here : sys.idx ≡ sys.exit_idx = ground arith in
    let number : (chunk sys sys.idx).generation * 16 + sys.idx ≡ sys.published + 15 =
      omega (arith, before, exit, here, inside, r.ahead, r.near) in
    (
      λ i lt.
          let done = all-done try_decode nworkers sys fork few v waited quiet i lt in
          omega (arith, v.pace i lt, done, number),
      number,
    )
