-- ===== src/Fuzzer/Crew/Interleaving.antt =====
-- src/mishegos/mishegos.c: deaths, handlers, restarts and rounds of the workers in any order.
use mishegos.Base.{
  ℕ, zero, suc, ◌+◌, ◌≤◌, ◌<◌, ◌≡◌, sym, ap, ◌∙◌, Bool, true, false, ◌==◌, if◌then◌else◌, arith,
  Bool-cases, inl, inr,
}
use mishegos.Fuzzer.Worker.{restart}
use mishegos.Fuzzer.Crew.{Crew, view, put, restart_workers}

-- A pass over the workers that starts none again has found no signal.
pub restart_workers-quiet :
    (fork : ℕ → ℕ) (n i : ℕ) (c : Crew)
    → (restart_workers fork n i c).0 ≡ false
    → (k : ℕ) → i ≤ k
    → k < i + n
    → (c.workers k).sigchld ≡ false
unfolding restart_workers
restart_workers-quiet fork zero i c e k le lt = absurd (omega arith)
restart_workers-quiet fork (suc n) i c e k le lt =
    let again = restart_workers fork n (i + 1) (put i (fork i) (restart (view c i)) c) in
    let others = restart_workers fork n (i + 1) c in
    elim (Bool-cases (c.workers i).sigchld) [
      | inl marked ↦
          let busy = ap (λ (b : Bool). (if b then (true, again.1) else others).0) marked in
          absurd (cc)
      | inr unmarked ↦
          let quiet : others.0 ≡ false =
            sym (ap (λ (b : Bool). (if b then (true, again.1) else others).0) unmarked) ∙ e in
          elim (Bool-cases (k == i)) [
            | inl here ↦
                let at : k ≡ i = ground arith in ap (λ (m : ℕ). (c.workers m).sigchld) at ∙ unmarked
            | inr other ↦
                restart_workers-quiet fork n (i + 1) c quiet k (ground arith) (omega arith)
          ]
    ]
