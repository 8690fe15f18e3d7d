-- ===== src/Bits.antt =====
-- Exclusive or at any width, by recursion on the lowest bit: what the generator of
-- src/mishegos/mutator.c needs of `^` on uint64_t.
pub mod Or
use Prim.Native.Nat.{bit_xor, bit_xor-bitwise, differ, digits}
use mishegos.Base.{ℕ, zero, suc, ◌+◌, ◌*◌, ◌/◌, ◌%◌, ◌^◌, ◌≤◌, ◌<◌, ◌≡◌, refl, sym, ap, ◌∙◌, arith}
use native.Mathlib.Nat.{
  pow-suc, le_refl, one-le-pow, mul-one, mul-add-mod_self_left, div-add-mod, mod-lt, mod-eq_of_lt,
}

-- The recursion behind the native operations takes a count of digits. Any count that covers the first
-- number gives the same result.
module _ (past : ℕ → ℕ) (op : ℕ → ℕ → ℕ) where
  digits_of_zero : (count b : ℕ) → digits past op count 0 b ≡ past b
  digits_of_zero zero b = refl
  digits_of_zero (suc count) b = refl

  pub digits_stable :
      (k l : ℕ) {a : ℕ} (b : ℕ) → a ≤ k → a ≤ l → digits past op k a b ≡ digits past op l a b
  digits_stable k l {a = zero} b fits fits' = digits_of_zero k b ∙ sym (digits_of_zero l b)
  digits_stable zero l {a = suc a} b fits fits' = absurd (omega arith)
  digits_stable (suc k) zero {a = suc a} b fits fits' = absurd (omega arith)
  digits_stable (suc k) (suc l) {a = suc a} b fits fits' =
      ap (λ (high : ℕ). high * 2 + op (suc a % 2) (b % 2))
        (digits_stable k l (b / 2) (omega arith) (omega arith))

differ_bits : (x y : ℕ) → x < 2 → y < 2 → differ x y ≡ (x + y) % 2
differ_bits zero y hx hy = omega arith
differ_bits (suc zero) zero hx hy = refl
differ_bits (suc zero) (suc zero) hx hy = refl
differ_bits (suc zero) (suc (suc y)) hx hy = absurd (omega arith)
differ_bits (suc (suc x)) y hx hy = absurd (omega arith)

shl_suc : (n a : ℕ) → a * 2 ^ suc n ≡ 2 * (a * 2 ^ n)
shl_suc n a = omega (arith, ap (λ (t : ℕ). a * t) (pow-suc 2 n))

pow_suc_left : (n : ℕ) → 2 ^ suc n ≡ 2 * 2 ^ n
pow_suc_left n = omega (arith, pow-suc 2 n)

-- The lowest bit, and the others.
pub bit_xor_step : (a b : ℕ) → bit_xor a b ≡ bit_xor (a / 2) (b / 2) * 2 + (a + b) % 2
bit_xor_step zero b = simp bit_xor-bitwise (omega arith)
bit_xor_step (suc a) b = omega (
  arith,
  bit_xor-bitwise (suc a) b,
  bit_xor-bitwise (suc a / 2) (b / 2),
  digits_stable (λ y. y) differ a (suc a / 2) (b / 2) (omega arith) (le_refl _),
  differ_bits (suc a % 2) (b % 2) (omega arith) (omega arith),
)

pub bit_xor-lt : (k a b : ℕ) → a < 2 ^ k → b < 2 ^ k → bit_xor a b < 2 ^ k
bit_xor-lt zero zero zero ha hb = omega arith
bit_xor-lt zero zero (suc b) ha hb = absurd (omega arith)
bit_xor-lt zero (suc a) b ha hb = absurd (omega arith)
bit_xor-lt (suc k) a b ha hb =
    let p = pow-suc 2 k in
    omega (arith, bit_xor_step a b, bit_xor-lt k (a / 2) (b / 2) (omega arith) (omega arith))

pub bit_xor_cancel : (k a b c : ℕ) → b < 2 ^ k → c < 2 ^ k → bit_xor a b ≡ bit_xor a c → b ≡ c
bit_xor_cancel zero a b c hb hc e = omega arith
bit_xor_cancel (suc k) a b c hb hc e =
    let p = pow-suc 2 k in
    let s = bit_xor_step a b in
    let t = bit_xor_step a c in
    omega
      (arith, bit_xor_cancel k (a / 2) (b / 2) (c / 2) (omega arith) (omega arith) (omega arith))

pub bit_xor_cancel_right : (k a b c : ℕ) → a < 2 ^ k → b < 2 ^ k → bit_xor a c ≡ bit_xor b c → a ≡ b
bit_xor_cancel_right zero a b c ha hb e = omega arith
bit_xor_cancel_right (suc k) a b c ha hb e =
    let p = pow-suc 2 k in
    let s = bit_xor_step a c in
    let t = bit_xor_step b c in
    omega (
      arith,
      bit_xor_cancel_right k (a / 2) (b / 2) (c / 2) (omega arith) (omega arith) (omega arith),
    )

-- Both sides of an equation of exclusive ors trade one operand.
pub bit_xor_trade :
    (k a b c d : ℕ)
    → a < 2 ^ k
    → b < 2 ^ k
    → c < 2 ^ k
    → d < 2 ^ k
    → bit_xor a b ≡ bit_xor c d
    → bit_xor a c ≡ bit_xor b d
bit_xor_trade zero a b c d ha hb hc hd e =
    let za : a ≡ 0 = omega arith in
    let zb : b ≡ 0 = omega arith in
    let zc : c ≡ 0 = omega arith in let zd : d ≡ 0 = omega arith in cc
bit_xor_trade (suc k) a b c d ha hb hc hd e =
    let p = pow-suc 2 k in
    let s = bit_xor_step a b in
    let t = bit_xor_step c d in
    omega (
      arith,
      bit_xor_step a c,
      bit_xor_step b d,
      bit_xor_trade k (a / 2) (b / 2) (c / 2) (d / 2) (omega arith) (omega arith) (omega arith)
          (omega arith) (omega arith),
    )

pub bit_xor-eq_zero : (k a b : ℕ) → a < 2 ^ k → b < 2 ^ k → bit_xor a b ≡ 0 → a ≡ b
bit_xor-eq_zero zero a b ha hb e = omega arith
bit_xor-eq_zero (suc k) a b ha hb e =
    let p = pow-suc 2 k in
    let s = bit_xor_step a b in
    omega (arith, bit_xor-eq_zero k (a / 2) (b / 2) (omega arith) (omega arith) (omega arith))

-- A shift to the left goes through.
pub bit_xor-shl : (n a b : ℕ) → bit_xor (a * 2 ^ n) (b * 2 ^ n) ≡ bit_xor a b * 2 ^ n
bit_xor-shl zero a b = rw (mul-one a, mul-one b, mul-one (bit_xor a b))
bit_xor-shl (suc n) a b =
    let ea = shl_suc n a in
    let eb = shl_suc n b in
    let step = bit_xor_step (a * 2 ^ suc n) (b * 2 ^ suc n) in
    let ha : a * 2 ^ suc n / 2 ≡ a * 2 ^ n = omega arith in
    let hb : b * 2 ^ suc n / 2 ≡ b * 2 ^ n = omega arith in
    let ih : bit_xor (a * 2 ^ suc n / 2) (b * 2 ^ suc n / 2) ≡ bit_xor a b * 2 ^ n =
      rw (ha, hb) (bit_xor-shl n a b) in
    omega (arith, shl_suc n (bit_xor a b))

mod_double : (m a : ℕ) → 0 < m → a % (2 * m) ≡ a / 2 % m * 2 + a % 2
mod_double m a h =
    let q = a / 2 / m in
    let r = a / 2 % m in
    let split : a / 2 ≡ m * q + r = sym (div-add-mod (a / 2) m) in
    let below : r < m = mod-lt (a / 2) h in
    let whole : a ≡ 2 * m * q + (r * 2 + a % 2) = omega arith in
    ap (λ (t : ℕ). t % (2 * m)) whole
    ∙ mul-add-mod_self_left (2 * m) q (r * 2 + a % 2)
    ∙ mod-eq_of_lt (omega arith)

mod_suc : (k a : ℕ) → a % 2 ^ suc k ≡ a / 2 % 2 ^ k * 2 + a % 2
mod_suc k a = rw (pow_suc_left k) (mod_double (2 ^ k) a (one-le-pow k 2 (omega arith)))

-- So does a cut to the lowest bits.
pub bit_xor-mod : (k a b : ℕ) → bit_xor (a % 2 ^ k) (b % 2 ^ k) ≡ bit_xor a b % 2 ^ k
bit_xor-mod zero a b =
    let za : a % 1 ≡ 0 = omega arith in
    let zb : b % 1 ≡ 0 = omega arith in rw (za, zb) (omega arith)
bit_xor-mod (suc k) a b =
    let p = pow-suc 2 k in
    let pos = one-le-pow k 2 (omega arith) in
    let cut = λ (x : ℕ). mod_suc k x in
    let ha : a % 2 ^ suc k / 2 ≡ a / 2 % 2 ^ k = omega (arith, cut a) in
    let hb : b % 2 ^ suc k / 2 ≡ b / 2 % 2 ^ k = omega (arith, cut b) in
    let ih : bit_xor (a % 2 ^ suc k / 2) (b % 2 ^ suc k / 2) ≡ bit_xor (a / 2) (b / 2) % 2 ^ k =
      rw (ha, hb) (bit_xor-mod k (a / 2) (b / 2)) in
    let half : bit_xor a b / 2 ≡ bit_xor (a / 2) (b / 2) = omega (arith, bit_xor_step a b) in
    let top : bit_xor a b / 2 % 2 ^ k ≡ bit_xor (a / 2) (b / 2) % 2 ^ k = rw half refl in
    omega (
      arith,
      bit_xor_step (a % 2 ^ suc k) (b % 2 ^ suc k),
      bit_xor_step a b,
      cut a,
      cut b,
      cut (bit_xor a b),
    )
