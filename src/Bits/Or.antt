-- ===== src/Bits/Or.antt =====
-- Inclusive or of two words without a bit in common: what `(x << k) | (x >> (64 - k))` needs.
use Prim.Native.Nat.{bit_or, bit_or-bitwise, max}
use mishegos.Base.{ℕ, zero, suc, ◌+◌, ◌*◌, ◌/◌, ◌%◌, ◌^◌, ◌≤◌, ◌<◌, ◌≡◌, refl, arith}
use mishegos.Bits.{digits_stable, shl_suc, pow_suc_left}
use native.Mathlib.Nat.{le_refl}

unfoldable low_or : ℕ → ℕ → ℕ
low_or x y = max (x % 2) (y % 2)

-- The lowest digit of the result, and the others.
bit_or_split : (x y : ℕ) → bit_or x y ≡ low_or x y + 2 * bit_or (x / 2) (y / 2)
unfolding low_or
bit_or_split zero y = simp bit_or-bitwise (omega arith)
bit_or_split (suc x) y = omega (
  arith,
  bit_or-bitwise (suc x) y,
  bit_or-bitwise (suc x / 2) (y / 2),
  digits_stable (λ t. t) max x (suc x / 2) (y / 2) (omega arith) (le_refl _),
)

or_zero_below : (n a : ℕ) → a ≤ n → bit_or a 0 ≡ a
unfolding low_or
or_zero_below n zero h = refl
or_zero_below zero (suc a) h = absurd (omega arith)
or_zero_below (suc n) (suc a) h =
    omega (arith, bit_or_split (suc a) 0, or_zero_below n (suc a / 2) (omega arith))

pub bit_or_disjoint : (k q r : ℕ) → r < 2 ^ k → bit_or (q * 2 ^ k) r ≡ q * 2 ^ k + r
unfolding low_or
bit_or_disjoint zero q r h = ground (arith, or_zero_below q q)
bit_or_disjoint (suc k) q r h =
    let p = pow_suc_left k in
    let s = shl_suc k q in
    let half : q * 2 ^ suc k / 2 ≡ q * 2 ^ k = omega arith in
    let ih : bit_or (q * 2 ^ suc k / 2) (r / 2) ≡ q * 2 ^ k + r / 2 =
      rw half (bit_or_disjoint k q (r / 2) (omega arith)) in
    omega (arith, bit_or_split (q * 2 ^ suc k) r)
