-- ===== src/Xoroshiro.antt =====
-- src/mishegos/mutator.c: the generator xoroshiro256** over `rng_state`.
pub mod Laws
pub mod Cycle
use Prim.Native.Nat.{bit_or, bit_xor}
use mishegos.Base.{ℕ, ◌*◌, ◌/◌, ◌%◌, ◌^◌, ◌-◌}

-- `uint64_t rng_state[4]`
pub record RngState : Type 0 where
  pub s0 : ℕ
  pub s1 : ℕ
  pub s2 : ℕ
  pub s3 : ℕ

abbrev pub u64 : ℕ → ℕ
u64 n = n % 2 ^ 64

-- `(x << k) | (x >> (64 - k))`
unfoldable pub xoroshiro256_rotl : ℕ → ℕ → ℕ
xoroshiro256_rotl x k = bit_or (u64 (x * 2 ^ k)) (x / 2 ^ (64 - k))

abbrev pub u8 : ℕ → ℕ
u8 n = n % 256

-- The updates of the four words, in the order of the source.
unfoldable pub next_state : RngState → RngState
next_state r =
    let t = u64 (r.s1 * 2 ^ 17) in
    let s2 = bit_xor r.s2 r.s0 in
    let s3 = bit_xor r.s3 r.s1 in
    let s1 = bit_xor r.s1 s2 in
    let s0 = bit_xor r.s0 s3 in
    record { s0 = s0; s1 = s1; s2 = bit_xor s2 t; s3 = xoroshiro256_rotl s3 45 }

-- `result_starstar`, which the state before the updates gives.
unfoldable pub result_starstar : RngState → ℕ
result_starstar r = u64 (xoroshiro256_rotl (u64 (r.s1 * 5)) 7 * 9)

unfoldable pub xoroshiro256_next : RngState → ℕ × RngState
unfolding next_state result_starstar
xoroshiro256_next r = (result_starstar r, next_state r)

unfoldable pub rand_long : RngState → ℕ × RngState
unfolding xoroshiro256_next
rand_long r = xoroshiro256_next r

-- `(uint8_t)rand_long()`
unfoldable pub rand_byte : RngState → ℕ × RngState
unfolding rand_long
rand_byte r = (u8 (rand_long r).0, (rand_long r).1)
