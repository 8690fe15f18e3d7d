-- ===== src/Fuzzer/Spawn/Found.antt =====
-- src/mishegos/mishegos.c: the handler looks a new process up by its pid.
use mishegos.Base.{
  ℕ, zero, suc, ◌+◌, ◌≤◌, ◌<◌, ◌≡◌, refl, ap, ◌∙◌, ◌⊎◌, inl, inr, Bool, true, false, some, ◌==◌,
  if◌then◌else◌, arith, Bool-cases, ==_iff,
}
use mishegos.Slots.{mishegos_max_nworkers}
use mishegos.Fuzzer.Crew.{Worker, find_pid, worker_for_pid}
use mishegos.Fuzzer.Spawn.{Spawning, Parent, Child, parent_step, child_step, closed, Spawns}

find_pid-found :
    (workers : ℕ → Worker) (pid i n from : ℕ)
    → (workers i).pid ≡ pid
    → ((k : ℕ) → (k == i) ≡ false → ((workers k).pid == pid) ≡ false)
    → from ≤ i
    → i < n + from
    → find_pid workers pid n from ≡ some i
unfolding find_pid
find_pid-found workers pid i zero from e apart le lt = absurd (omega arith)
find_pid-found workers pid i (suc n) from e apart le lt = elim (Bool-cases (from == i)) [
  | inl here ↦
      let same : from ≡ i = ground arith in
      let hit : ((workers from).pid == pid) ≡ true =
        (==_iff _ _).1 (ap (λ (k : ℕ). (workers k).pid) same ∙ e) in
      rw hit (ap some same)
  | inr other ↦
      rw (apart from other)
        (find_pid-found workers pid i n (from + 1) e apart (ground arith) (omega arith))
]

module _ (i pid : ℕ) (workers : ℕ → Worker) where
  -- The byte is in the pipe only when the pid is stored, and the child runs only when the byte is there.
  record Held (s : Spawning) : Type 0 where
    others : (k : ℕ) → (k == i) ≡ false → (s.workers k).pid ≡ (workers k).pid
    before : s.parent ≡ Parent.stores → s.written ≡ false
    ready : s.parent ≡ Parent.writes → (s.workers i).pid ≡ pid
    kept : s.written ≡ true → (s.workers i).pid ≡ pid
    running : (s.child ≡ Child.runs) ⊎ (s.child ≡ Child.died) → s.written ≡ true

  parent-Held : (s : Spawning) (p : Parent) → Held s → s.parent ≡ p → Held (parent_step i pid p s)
  unfolding parent_step
  parent-Held s Parent.stores h e =
      let self : (i == i) ≡ true = (==_iff i i).1 refl in
      record {
        others = λ k other. rw other (h.others k other);
        before = λ e'. absurd (cc (e'));
        ready = λ _. rw self refl;
        kept = λ _. rw self refl;
        running = h.running;
      }
  parent-Held s Parent.writes h e = record {
    others = h.others;
    before = λ e'. absurd (cc (e'));
    ready = λ e'. absurd (cc (e'));
    kept = λ _. h.ready e;
    running = λ _. refl;
  }
  parent-Held s Parent.closes h e = record {
    others = h.others;
    before = λ e'. absurd (cc (e'));
    ready = λ e'. absurd (cc (e'));
    kept = h.kept;
    running = h.running;
  }
  parent-Held s Parent.done h e = h
  parent-Held s Parent.lost h e = h

  child-becomes :
      (s : Spawning) (c : Child)
      → Held s
      → ((c ≡ Child.runs) ⊎ (c ≡ Child.died) → s.written ≡ true)
      → Held (record s { child = c })
  child-becomes s c h running = record {
    others = h.others;
    before = h.before;
    ready = h.ready;
    kept = h.kept;
    running = running;
  }

  exited-waits : (Child.exited ≡ Child.runs) ⊎ (Child.exited ≡ Child.died) → ⊥
  exited-waits (inl e) = absurd (cc (e))
  exited-waits (inr e) = absurd (cc (e))

  reading-Held :
      (s : Spawning) (b c : Bool)
      → s.written ≡ b
      → Held s
      → Held (
          if b
          then record s { child = Child.runs }
          else if c
          then record s { child = Child.exited }
          else s)
  reading-Held s true c e h = child-becomes s Child.runs h (λ _. e)
  reading-Held s false true e h =
      child-becomes s Child.exited h (λ gone. absurd (exited-waits gone))
  reading-Held s false false e h = h

  child-Held : (s : Spawning) (c : Child) → Held s → s.child ≡ c → Held (child_step c s)
  unfolding child_step
  child-Held s Child.reads h e = reading-Held s s.written (closed s.parent) refl h
  child-Held s Child.runs h e = child-becomes s Child.died h (λ _. h.running (inl e))
  child-Held s Child.died h e = h
  child-Held s Child.exited h e = h

  Spawns-Held : (s : Spawning) → Spawns i pid workers s → Held s
  Spawns-Held s (Spawns.begin e) = record {
    others = λ k other. refl;
    before = λ _. refl;
    ready = λ e'. absurd (cc (e'));
    kept = λ e'. absurd (cc (e'));
    running = λ e'. elim e' [ inl a ↦ absurd (cc (a)) | inr a ↦ absurd (cc (a)) ];
  }
  Spawns-Held s (Spawns.parent_goes {s = b} steps) =
      parent-Held b b.parent (Spawns-Held b steps) refl
  Spawns-Held s (Spawns.child_goes {s = b} steps) = child-Held b b.child (Spawns-Held b steps) refl
  Spawns-Held s (Spawns.parent_dies {s = b} steps) =
      let h = Spawns-Held b steps in
      record {
        others = h.others;
        before = λ e'. absurd (cc (e'));
        ready = λ e'. absurd (cc (e'));
        kept = h.kept;
        running = h.running;
      }

-- A new process that has died in `worker` is found: however the two processes go on, and even if the
-- parent dies in between, its pid then stands in its entry, so that the handler finds that entry and does
-- not abort. No other entry has its pid.
pub Spawns-found :
    (i pid : ℕ) (workers : ℕ → Worker) (s : Spawning)
    → i < mishegos_max_nworkers
    → ((k : ℕ) → (k == i) ≡ false → ((workers k).pid == pid) ≡ false)
    → Spawns i pid workers s
    → s.child ≡ Child.died
    → worker_for_pid s.workers pid ≡ some i
unfolding worker_for_pid
Spawns-found i pid workers s lt apart steps dead =
    let h = Spawns-Held i pid workers s steps in
    find_pid-found s.workers pid i mishegos_max_nworkers 0 (h.kept (h.running (inr dead)))
      (λ k other. ap (λ (p : ℕ). p == pid) (h.others k other) ∙ apart k other) (omega arith)
      (omega arith)
