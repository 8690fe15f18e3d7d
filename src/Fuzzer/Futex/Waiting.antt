-- ===== src/Fuzzer/Futex/Waiting.antt =====
-- src/mishegos/mishegos.c: who waits for a variable, and what it has read.
use mishegos.Base.{
  ℕ, ◌+◌, ◌%◌, ◌^◌, ◌≤◌, ◌<◌, ◌≡◌, ◌≢◌, refl, sym, ◌∙◌, Bool, true, false, ltb, ◌==◌, arith,
  Bool-cases, inl, inr,
}
use mishegos.Fuzzer.Futex.{AtomicUint, Waiter, wait_step, woken, interrupted}

abbrev pub asleep : Waiter → Bool
asleep (Waiter.sleeps old cnt) = true
asleep (Waiter.looks cnt) = false
asleep (Waiter.registers old cnt) = false
asleep (Waiter.enters old cnt) = false
asleep (Waiter.leaves cnt) = false
asleep Waiter.passed = false

-- 1 if the process is counted in `waiters`.
abbrev pub registered : Waiter → ℕ
registered (Waiter.enters old cnt) = 1
registered (Waiter.sleeps old cnt) = 1
registered (Waiter.leaves cnt) = 1
registered (Waiter.looks cnt) = 0
registered (Waiter.registers old cnt) = 0
registered Waiter.passed = 0

-- What it read was not its target.
abbrev pub Honest : ℕ → Waiter → Type 0
Honest target (Waiter.registers old cnt) = old ≢ target
Honest target (Waiter.enters old cnt) = old ≢ target
Honest target (Waiter.sleeps old cnt) = old ≢ target
Honest target (Waiter.looks cnt) = Unit
Honest target (Waiter.leaves cnt) = Unit
Honest target Waiter.passed = Unit

pub registered-le : (w : Waiter) → registered w ≤ 1
registered-le (Waiter.enters old cnt) = omega arith
registered-le (Waiter.sleeps old cnt) = omega arith
registered-le (Waiter.leaves cnt) = omega arith
registered-le (Waiter.looks cnt) = omega arith
registered-le (Waiter.registers old cnt) = omega arith
registered-le Waiter.passed = omega arith

pub woken_lem :
    (target : ℕ) (w : Waiter)
    → Honest target w
    → (registered (woken w) ≡ registered w) × Honest target (woken w) × (asleep (woken w) ≡ false)
woken_lem target (Waiter.enters old cnt) h = (refl, h, refl)
woken_lem target (Waiter.sleeps old cnt) h = (refl, tt, refl)
woken_lem target (Waiter.leaves cnt) h = (refl, h, refl)
woken_lem target (Waiter.looks cnt) h = (refl, h, refl)
woken_lem target (Waiter.registers old cnt) h = (refl, h, refl)
woken_lem target Waiter.passed h = (refl, h, refl)

pub interrupted_lem :
    (target : ℕ) (w : Waiter)
    → Honest target w
    → (registered (interrupted w) ≡ registered w)
      × Honest target (interrupted w)
      × (asleep (interrupted w) ≡ false)
interrupted_lem target (Waiter.enters old cnt) h = (refl, h, refl)
interrupted_lem target (Waiter.sleeps old cnt) h = (refl, h, refl)
interrupted_lem target (Waiter.leaves cnt) h = (refl, h, refl)
interrupted_lem target (Waiter.looks cnt) h = (refl, h, refl)
interrupted_lem target (Waiter.registers old cnt) h = (refl, h, refl)
interrupted_lem target Waiter.passed h = (refl, h, refl)

-- A process that is asleep is counted.
pub asleep-registered : (w : Waiter) → asleep w ≡ true → registered w ≡ 1
asleep-registered (Waiter.enters old cnt) e = refl
asleep-registered (Waiter.sleeps old cnt) e = refl
asleep-registered (Waiter.leaves cnt) e = refl
asleep-registered (Waiter.looks cnt) e = absurd (cc (e))
asleep-registered (Waiter.registers old cnt) e = absurd (cc (e))
asleep-registered Waiter.passed e = absurd (cc (e))

-- What an access of a waiting process does: the value stays, the count follows it, and it goes to sleep
-- only if the value is not its target.
pub record Access (target : ℕ) (w : Waiter) (a : AtomicUint) (r : Waiter × AtomicUint)
    : Type 0 where
  pub same : r.1.val ≡ a.val
  pub follows : r.1.waiters + registered w ≡ a.waiters + registered r.0
  pub honest : Honest target r.0
  pub late : asleep r.0 ≡ true → a.val ≡ target → asleep w ≡ true

pub wait_step-Access :
    (target : ℕ) (w : Waiter) (a : AtomicUint)
    → Honest target w
    → registered w ≤ a.waiters
    → a.waiters + 1 < 2 ^ 32
    → Access target w a (wait_step target w a)
unfolding wait_step
wait_step-Access target (Waiter.looks cnt) a h counted bound = elim (Bool-cases (a.val == target)) [
  | inl there ↦ rw there (record { same = refl; follows = refl; honest = tt; late = λ e _. e })
  | inr other ↦ elim (Bool-cases (ltb 10000 ((cnt + 1) % 2 ^ 64))) [
    | inl many ↦
        rw (other, many)
          (record { same = refl; follows = refl; honest = ground arith; late = λ e _. e })
    | inr few ↦
        rw (other, few) (record { same = refl; follows = refl; honest = tt; late = λ e _. e })
  ]
]
wait_step-Access target (Waiter.registers old cnt) a h counted bound = record {
  same = refl;
  follows = omega arith;
  honest = h;
  late = λ e _. e;
}
wait_step-Access target (Waiter.enters old cnt) a h counted bound =
    elim (Bool-cases (a.val == old)) [
      | inl still ↦
          let read : a.val ≡ old = ground arith in
          rw still (record {
            same = refl;
            follows = refl;
            honest = h;
            late = λ _ e. absurd (h (sym read ∙ e));
          })
      | inr changed ↦
          rw changed
            (record { same = refl; follows = refl; honest = tt; late = λ e _. absurd (cc (e)) })
    ]
wait_step-Access target (Waiter.sleeps old cnt) a h counted bound = record {
  same = refl;
  follows = refl;
  honest = h;
  late = λ e _. e;
}
wait_step-Access target (Waiter.leaves cnt) a h counted bound = record {
  same = refl;
  follows = omega arith;
  honest = tt;
  late = λ e _. e;
}
wait_step-Access target Waiter.passed a h counted bound = record {
  same = refl;
  follows = refl;
  honest = tt;
  late = λ e _. e;
}
