-- ===== src/Fuzzer/Futex.antt =====
-- src/mishegos/mishegos.c: `mish_atomic_wait_for` and `mish_atomic_notify` on one variable, which several
-- processes share. Their accesses to memory take effect one after the other.
pub mod Waiting
pub mod Wakeups
use mishegos.Base.{ℕ, ◌+◌, ◌-◌, ◌%◌, ◌^◌, ◌≤◌, ◌<◌, ◌≡◌, not, ltb, ◌==◌, if◌then◌else◌}
use mishegos.Fuzzer.Worker.{update, to_u32, minus_one}

-- mish_atomic_uint
pub record AtomicUint : Type 0 where
  pub val : ℕ  -- uint32_t
  pub waiters : ℕ  -- uint32_t

-- Where a process is in `mish_atomic_wait_for`: it is about to read the value, about to count itself as a
-- waiter or to call futex with the value that it read, asleep, or about to take itself off; or it is
-- behind the loop. With the number of rounds `cnt`.
pub data Waiter : Type 0 where
  looks : ℕ → Waiter
  registers : ℕ → ℕ → Waiter
  enters : ℕ → ℕ → Waiter
  sleeps : ℕ → ℕ → Waiter
  leaves : ℕ → Waiter
  passed : Waiter

-- The next access of a process that waits for `target`. FUTEX_WAIT puts it to sleep only if the value is
-- still the one that it read.
unfoldable pub wait_step : ℕ → Waiter → AtomicUint → Waiter × AtomicUint
wait_step target (Waiter.looks cnt) a =
    let more = (cnt + 1) % 2 ^ 64 in
    if a.val == target
    then (Waiter.passed, a)
    else if ltb 10000 more
    then (Waiter.registers a.val more, a)
    else (Waiter.looks more, a)
wait_step target (Waiter.registers old cnt) a =
    (Waiter.enters old cnt, record a { waiters = to_u32 (a.waiters + 1) })
wait_step target (Waiter.enters old cnt) a =
    (if a.val == old then Waiter.sleeps old cnt else Waiter.leaves cnt, a)
wait_step target (Waiter.sleeps old cnt) a = (Waiter.sleeps old cnt, a)
wait_step target (Waiter.leaves cnt) a =
    (Waiter.looks cnt, record a { waiters = to_u32 (a.waiters + minus_one) })
wait_step target Waiter.passed a = (Waiter.passed, a)

-- FUTEX_WAKE wakes all that sleep.
abbrev pub woken : Waiter → Waiter
woken (Waiter.sleeps old cnt) = Waiter.leaves cnt
woken (Waiter.looks cnt) = Waiter.looks cnt
woken (Waiter.registers old cnt) = Waiter.registers old cnt
woken (Waiter.enters old cnt) = Waiter.enters old cnt
woken (Waiter.leaves cnt) = Waiter.leaves cnt
woken Waiter.passed = Waiter.passed

-- A signal interrupts FUTEX_WAIT, which is then started again with the value that the process read.
abbrev pub interrupted : Waiter → Waiter
interrupted (Waiter.sleeps old cnt) = Waiter.enters old cnt
interrupted (Waiter.looks cnt) = Waiter.looks cnt
interrupted (Waiter.registers old cnt) = Waiter.registers old cnt
interrupted (Waiter.enters old cnt) = Waiter.enters old cnt
interrupted (Waiter.leaves cnt) = Waiter.leaves cnt
interrupted Waiter.passed = Waiter.passed

-- The variable, the processes that wait for it with their targets, and how many processes are between
-- their change of the value and their look at `waiters` in `mish_atomic_notify`.
pub record WaitQueue : Type 0 where
  pub var : AtomicUint
  pub waiting : ℕ → Waiter
  pub targets : ℕ → ℕ
  pub notifying : ℕ

-- `mish_atomic_notify`
unfoldable pub notify : WaitQueue → WaitQueue
notify s =
    if not (s.var.waiters == 0)
    then record s { waiting = λ k. woken (s.waiting k); notifying = s.notifying - 1 }
    else record s { notifying = s.notifying - 1 }

abbrev pub set : ℕ → WaitQueue → WaitQueue
set v s = record s { var = record s.var { val = v } }

-- A worker counts itself off: it notifies if the value was 1.
unfoldable pub count_off : WaitQueue → WaitQueue
count_off s =
    let s' = set (to_u32 (s.var.val + minus_one)) s in
    if s.var.val == 1 then record s' { notifying = s.notifying + 1 } else s'

-- `n` processes wait. A generation is stored and notified; `remaining_workers` has one process that waits
-- for it to be 0, which changes it itself as well, in `main` or in its signal handler.
module _ (n : ℕ) where
  pub data Accesses : WaitQueue → Type 0 where
    begin :
        (v : ℕ) (targets : ℕ → ℕ)
        → v < 2 ^ 32
        → Accesses (record {
          var = record { val = v; waiters = 0 };
          waiting = λ k. Waiter.looks 0;
          targets = targets;
          notifying = 0;
        })
    waits :
        {s : WaitQueue} (k : ℕ)
        → Accesses s
        → k < n
        → Accesses (
            let (w, a) = wait_step (s.targets k) (s.waiting k) s.var in
            record s { var = a; waiting = update s.waiting k w })
    starts :
        {s : WaitQueue} (k target : ℕ)
        → Accesses s
        → k < n
        → s.waiting k ≡ Waiter.passed
        → Accesses (record s {
          waiting = update s.waiting k (Waiter.looks 0);
          targets = update s.targets k target;
        })
    stores :
        {s : WaitQueue} (v : ℕ)
        → Accesses s
        → v < 2 ^ 32
        → Accesses (record (set v s) { notifying = s.notifying + 1 })
    counts_off :
        {s : WaitQueue} → Accesses s → ((k : ℕ) → k < n → s.targets k ≡ 0) → Accesses (count_off s)
    notifies : {s : WaitQueue} → Accesses s → 1 ≤ s.notifying → Accesses (notify s)
    changes :
        {s : WaitQueue} (v : ℕ)
        → Accesses s
        → n ≡ 1
        → v < 2 ^ 32
        → Accesses (record (set v s) { waiting = update s.waiting 0 (interrupted (s.waiting 0)) })
