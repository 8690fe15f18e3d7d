-- ===== src/Xoroshiro/Laws.antt =====
-- Ranges of the generator, its rotation as arithmetic, and the interface that the mutators use.
use Prim.Native.Nat.{bit_xor}
use mishegos.Base.{ℕ, ◌+◌, ◌*◌, ◌/◌, ◌%◌, ◌^◌, ◌<◌, ◌≡◌, arith}
use mishegos.Bits.{bit_xor-lt}
use mishegos.Bits.Or.{bit_or_disjoint}
use mishegos.Gen.{Rng}
use mishegos.Xoroshiro.{
  RngState, u64, xoroshiro256_rotl, next_state, result_starstar, rand_long, rand_byte,
}

-- Each word of the state fits 64 bits.
pub record IsValid (r : RngState) : Type 0 where
  pub s0_lt : r.s0 < 2 ^ 64
  pub s1_lt : r.s1 < 2 ^ 64
  pub s2_lt : r.s2 < 2 ^ 64
  pub s3_lt : r.s3 < 2 ^ 64

-- The two halves of a rotation have no bit in common.
pub rotl_45 : (x : ℕ) → x < 2 ^ 64 → xoroshiro256_rotl x 45 ≡ x % 2 ^ 19 * 2 ^ 45 + x / 2 ^ 19
unfolding xoroshiro256_rotl
rotl_45 x h =
    let high : x * 2 ^ 45 % 2 ^ 64 ≡ x % 2 ^ 19 * 2 ^ 45 = omega arith in
    rw high (bit_or_disjoint 45 (x % 2 ^ 19) (x / 2 ^ 19) (omega arith))

pub rotl_45-lt : (x : ℕ) → x < 2 ^ 64 → xoroshiro256_rotl x 45 < 2 ^ 64
rotl_45-lt x h = omega (arith, rotl_45 x h)

pub rotl_45_injective :
    (x y : ℕ) → x < 2 ^ 64 → y < 2 ^ 64 → xoroshiro256_rotl x 45 ≡ xoroshiro256_rotl y 45 → x ≡ y
rotl_45_injective x y hx hy e = omega (arith, rotl_45 x hx, rotl_45 y hy)

-- The words of the state stay below 2 ^ 64 from step to step.
pub next_state-IsValid : (r : RngState) → IsValid r → IsValid (next_state r)
unfolding next_state
next_state-IsValid r v = record {
  s0_lt = xor r.s0 s3 v.s0_lt s3_lt;
  s1_lt = xor r.s1 s2 v.s1_lt s2_lt;
  s2_lt = xor s2 (u64 (r.s1 * 2 ^ 17)) s2_lt (omega arith);
  s3_lt = rotl_45-lt s3 s3_lt;
}
  where
    xor : (a b : ℕ) → a < 2 ^ 64 → b < 2 ^ 64 → bit_xor a b < 2 ^ 64
    xor a b ha hb = bit_xor-lt 64 a b ha hb

    s2 : ℕ
    s2 = bit_xor r.s2 r.s0

    s2_lt : s2 < 2 ^ 64
    s2_lt = xor r.s2 r.s0 v.s2_lt v.s0_lt

    s3 : ℕ
    s3 = bit_xor r.s3 r.s1

    s3_lt : s3 < 2 ^ 64
    s3_lt = xor r.s3 r.s1 v.s3_lt v.s1_lt

pub rand_long-lt : (r : RngState) → (rand_long r).0 < 2 ^ 64
unfolding rand_long result_starstar
rand_long-lt r = omega arith

pub rand_byte-lt : (r : RngState) → (rand_byte r).0 < 256
unfolding rand_byte
rand_byte-lt r = omega arith

-- The generator that is compiled in by default.
abbrev pub xoroshiro : Rng
xoroshiro = record {
  State = RngState;
  next_long = rand_long;
  next_byte = rand_byte;
  next_long_lt = rand_long-lt;
  next_byte_lt = rand_byte-lt;
}
