-- ===== src/Fuzzer/Futex/Wakeups.antt =====
-- src/mishegos/mishegos.c: a change of the value and the sleep of a process that waits for it.
use mishegos.Base.{
  ℕ, ◌+◌, ◌^◌, ◌≤◌, ◌<◌, ◌≡◌, ◌≢◌, refl, sym, ap, ◌∙◌, subst, Bool, true, ◌==◌, if◌then◌else◌,
  arith, Bool-cases, ==_iff, inl, inr, sum_below, sum_below-change, sum_below-term, sum_below-le,
  sum_below-same, sum_below-zero,
}
use mishegos.Fuzzer.Worker.{update}
use mishegos.Fuzzer.Futex.{
  AtomicUint, Waiter, WaitQueue, woken, interrupted, notify, set, count_off, Accesses,
}
use mishegos.Fuzzer.Futex.Waiting.{
  asleep, registered, Honest, Access, registered-le, woken_lem, interrupted_lem, asleep-registered,
  wait_step-Access,
}

module _ (n : ℕ) where
  pub record Inv (s : WaitQueue) : Type 0 where
    pub word : s.var.val < 2 ^ 32
    pub counted : s.var.waiters ≡ sum_below (λ k. registered (s.waiting k)) n
    pub honest : (k : ℕ) → k < n → Honest (s.targets k) (s.waiting k)
    pub awake :
        (k : ℕ) → k < n → asleep (s.waiting k) ≡ true → s.var.val ≡ s.targets k → 1 ≤ s.notifying

  count-update :
      (waiting : ℕ → Waiter) (k : ℕ) (w : Waiter)
      → k < n
      → sum_below (λ j. registered (update waiting k w j)) n + registered (waiting k)
        ≡ sum_below (λ j. registered (waiting j)) n + registered w
  count-update waiting k w lt =
      let here : (k == k) ≡ true = (==_iff k k).1 refl in
      let changed =
        sum_below-change (λ j. registered (waiting j)) (λ j. registered (update waiting k w j)) k n
          lt (λ j other. rw other refl) in
      changed
      ∙ ap
          (λ (b : Bool).
            sum_below (λ j. registered (waiting j)) n + registered (if b then w else waiting k))
          here

  waits-Inv :
      (s : WaitQueue) (k : ℕ) (r : Waiter × AtomicUint)
      → Inv s
      → k < n
      → Access (s.targets k) (s.waiting k) s.var r
      → Inv (record s { var = r.1; waiting = update s.waiting k r.0 })
  waits-Inv s k r v lt a = record {
    word = rw a.same v.word;
    counted = omega (arith, a.follows, v.counted, count-update s.waiting k r.0 lt);
    honest = λ j within. elim (Bool-cases (j == k)) [
      | inl here ↦
          let same : j ≡ k = ground arith in
          rw here (subst (λ (m : ℕ). Honest (s.targets m) r.0) (sym same) a.honest)
      | inr other ↦ rw other (v.honest j within)
    ];
    awake = λ j within. elim (Bool-cases (j == k)) [
      | inl here ↦
          let same : j ≡ k = ground arith in
          rw here λ e there.
            let there' : s.var.val ≡ s.targets k = sym a.same ∙ there ∙ ap s.targets same in
            v.awake k lt (a.late e there') there'
      | inr other ↦ rw other λ e there. v.awake j within e (sym a.same ∙ there)
    ];
  }

  starts-Inv :
      (s : WaitQueue) (k target : ℕ)
      → Inv s
      → k < n
      → s.waiting k ≡ Waiter.passed
      → Inv (record s {
        waiting = update s.waiting k (Waiter.looks 0);
        targets = update s.targets k target;
      })
  starts-Inv s k target v lt e = record {
    word = v.word;
    counted =
        let uncounted : registered (s.waiting k) ≡ 0 = ap registered e in
        omega (arith, v.counted, count-update s.waiting k (Waiter.looks 0) lt, uncounted);
    honest = λ j within. elim (Bool-cases (j == k)) [
      | inl here ↦ rw here tt
      | inr other ↦ rw other (v.honest j within)
    ];
    awake = λ j within. elim (Bool-cases (j == k)) [
      | inl here ↦ rw here λ e' there. absurd (cc (e'))
      | inr other ↦ rw other (v.awake j within)
    ];
  }

  counts_off-Inv : (s : WaitQueue) → Inv s → ((k : ℕ) → k < n → s.targets k ≡ 0) → Inv (count_off s)
  unfolding count_off
  counts_off-Inv s v zeros = elim (Bool-cases (s.var.val == 1)) [
    | inl one ↦ rw one (record {
      word = omega arith;
      counted = v.counted;
      honest = v.honest;
      awake = λ k lt e there. omega arith;
    })
    | inr more ↦ rw more (record {
      word = omega arith;
      counted = v.counted;
      honest = v.honest;
      awake = λ k lt e there.
          let apart : s.var.val ≢ 1 = ground arith in
          absurd (omega (arith, apart, there, zeros k lt, v.word));
    })
  ]

  notifies-Inv : (s : WaitQueue) → Inv s → Inv (notify s)
  unfolding notify
  notifies-Inv s v = elim (Bool-cases (s.var.waiters == 0)) [
    | inl nobody ↦ rw nobody (record {
      word = v.word;
      counted = v.counted;
      honest = v.honest;
      awake = λ k lt e there.
          let one = asleep-registered (s.waiting k) e in
          let below = sum_below-term (λ j. registered (s.waiting j)) k n lt in
          let none : s.var.waiters ≡ 0 = ground arith in
          absurd (omega (arith, one, below, none, v.counted));
    })
    | inr some ↦ rw some (record {
      word = v.word;
      counted =
          v.counted
          ∙ sum_below-same (λ j. registered (s.waiting j)) (λ j. registered (woken (s.waiting j))) n
              (λ k lt. sym (woken_lem (s.targets k) (s.waiting k) (v.honest k lt)).0);
      honest = λ k lt. (woken_lem (s.targets k) (s.waiting k) (v.honest k lt)).1;
      awake = λ k lt e there.
          let up = (woken_lem (s.targets k) (s.waiting k) (v.honest k lt)).2 in absurd (cc (e, up));
    })
  ]

  changes-Inv :
      (s : WaitQueue) (v : ℕ)
      → Inv s
      → n ≡ 1
      → v < 2 ^ 32
      → Inv (record (set v s) { waiting = update s.waiting 0 (interrupted (s.waiting 0)) })
  changes-Inv s v i alone lt =
      let first = interrupted_lem (s.targets 0) (s.waiting 0) (i.honest 0 (omega arith)) in
      record {
        word = lt;
        counted = omega (
          arith,
          i.counted,
          first,
          count-update s.waiting 0 (interrupted (s.waiting 0)) (omega arith),
        );
        honest = λ k within. elim (Bool-cases (k == 0)) [
          | inl here ↦
              let same : k ≡ 0 = ground arith in
              rw here (
                subst (λ (m : ℕ). Honest (s.targets m) (interrupted (s.waiting 0))) (sym same)
                  first.1)
          | inr other ↦ absurd (ground arith)
        ];
        awake = λ k within. elim (Bool-cases (k == 0)) [
          | inl here ↦ rw here λ e there. let up = first.2 in absurd (cc (e, up))
          | inr other ↦ absurd (ground arith)
        ];
      }

  waiters-bound :
      (s : WaitQueue) (k : ℕ)
      → Inv s
      → k < n
      → n < 2 ^ 31
      → (registered (s.waiting k) ≤ s.var.waiters) × (s.var.waiters + 1 < 2 ^ 32)
  waiters-bound s k v lt few =
      let below = sum_below-term (λ j. registered (s.waiting j)) k n lt in
      let all = sum_below-le (λ j. registered (s.waiting j)) n (λ j. registered-le (s.waiting j)) in
      (omega (arith, below, v.counted), omega (arith, all, v.counted))

  pub Accesses-Inv : (s : WaitQueue) → n < 2 ^ 31 → Accesses n s → Inv s
  Accesses-Inv s few (Accesses.begin v targets lt) = record {
    word = lt;
    counted = sym (sum_below-zero (λ k. 0) n (λ k. refl));
    honest = λ k within. tt;
    awake = λ k within e there. absurd (cc (e));
  }
  Accesses-Inv s few (Accesses.waits {s = b} k before lt) =
      let v = Accesses-Inv b few before in
      let (counted, bound) = waiters-bound b k v lt few in
      waits-Inv b k _ v lt
        (wait_step-Access (b.targets k) (b.waiting k) b.var (v.honest k lt) counted bound)
  Accesses-Inv s few (Accesses.starts {s = b} k target before lt e) =
      starts-Inv b k target (Accesses-Inv b few before) lt e
  Accesses-Inv s few (Accesses.stores {s = b} v before lt) =
      let i = Accesses-Inv b few before in
      record {
        word = lt;
        counted = i.counted;
        honest = i.honest;
        awake = λ k within e there. omega arith;
      }
  Accesses-Inv s few (Accesses.counts_off {s = b} before zeros) =
      counts_off-Inv b (Accesses-Inv b few before) zeros
  Accesses-Inv s few (Accesses.notifies {s = b} before pending) =
      notifies-Inv b (Accesses-Inv b few before)
  Accesses-Inv s few (Accesses.changes {s = b} v before alone lt) =
      changes-Inv b v (Accesses-Inv b few before) alone lt

-- No wake-up is lost: when every process that changed the value has looked whom to wake, no process
-- sleeps while the value is the one it waits for. A generation is stored and notified each time, and
-- `remaining_workers` is notified when it comes to 0; the only process that waits for the latter may
-- change it itself without notifying, also in a signal handler. Fewer than 2 ^ 31 processes wait, and
-- their accesses to memory take effect one after the other.
pub Accesses-awake :
    (n : ℕ) (s : WaitQueue) (k old cnt : ℕ)
    → n < 2 ^ 31
    → Accesses n s
    → s.notifying ≡ 0
    → k < n
    → s.waiting k ≡ Waiter.sleeps old cnt
    → s.var.val ≢ s.targets k
Accesses-awake n s k old cnt few reached quiet lt sleeping there =
    let v = Accesses-Inv n s few reached in
    let late = v.awake k lt (ap asleep sleeping) there in absurd (omega (arith, late, quiet))
