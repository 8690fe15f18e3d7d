-- ===== src/Base/Sums.antt =====
-- Sums over the first numbers.
use mishegos.Base.Tests.{◌==◌, Bool-cases}
use Prim.Native.Nat.{ℕ, zero, suc, ◌+◌, ◌≤◌, ◌<◌}
use mathlib.Core.Path.{◌≡◌, refl, ap}
use mathlib.Core.Logic.{inl, inr}
use mathlib.Core.Bool.{false}
use native.Mathlib.Omega.{arith}

unfoldable pub sum_below : (ℕ → ℕ) → ℕ → ℕ
sum_below f zero = 0
sum_below f (suc n) = sum_below f n + f n

pub sum_below-same :
    (f g : ℕ → ℕ) (n : ℕ) → ((k : ℕ) → k < n → f k ≡ g k) → sum_below f n ≡ sum_below g n
unfolding sum_below
sum_below-same f g zero h = refl
sum_below-same f g (suc n) h =
    rw (sum_below-same f g n (λ k lt. h k (omega arith)), h n (omega arith)) refl

-- One term changes.
pub sum_below-change :
    (f g : ℕ → ℕ) (i n : ℕ)
    → i < n
    → ((k : ℕ) → (k == i) ≡ false → g k ≡ f k)
    → sum_below g n + f i ≡ sum_below f n + g i
unfolding sum_below
sum_below-change f g i zero lt h = absurd (omega arith)
sum_below-change f g i (suc n) lt h = elim (Bool-cases (n == i)) [
  | inl here ↦
      let same : n ≡ i = ground arith in
      let before : sum_below g n ≡ sum_below f n =
        sum_below-same g f n (λ k lt'. h k (ground arith)) in
      omega (arith, before, ap f same, ap g same)
  | inr other ↦
      let before = sum_below-change f g i n (ground arith) h in omega (arith, before, h n other)
]

pub sum_below-term : (f : ℕ → ℕ) (i n : ℕ) → i < n → f i ≤ sum_below f n
unfolding sum_below
sum_below-term f i zero lt = absurd (omega arith)
sum_below-term f i (suc n) lt = elim (Bool-cases (i == n)) [
  | inl last ↦ let same : i ≡ n = ground arith in omega (arith, ap f same)
  | inr other ↦ omega (arith, sum_below-term f i n (ground arith))
]

pub sum_below-le : (f : ℕ → ℕ) (n : ℕ) → ((k : ℕ) → f k ≤ 1) → sum_below f n ≤ n
unfolding sum_below
sum_below-le f zero h = omega arith
sum_below-le f (suc n) h = omega (arith, sum_below-le f n h, h n)

pub sum_below-zero : (f : ℕ → ℕ) (n : ℕ) → ((k : ℕ) → f k ≡ 0) → sum_below f n ≡ 0
unfolding sum_below
sum_below-zero f zero h = refl
sum_below-zero f (suc n) h = omega (arith, sum_below-zero f n h, h n)
