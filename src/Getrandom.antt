-- ===== src/Getrandom.antt =====
-- src/mishegos/mutator.c, built with NO_XOROSHIRO_RNG: `mish_getrandom`, and `rand_long` and `rand_byte`
-- on it.
use mishegos.Base.{
  ℕ, zero, suc, ◌+◌, ◌^◌, ◌<◌, List, [], ◌∷◌, arith, Option, none, some, leb, ltb, if◌then◌else◌,
  Bool-cases, inl, inr,
}
use mishegos.Bytes.{of_le}
use mishegos.Gen.{Rng}
use native.Mathlib.Nat.{pow-suc}

-- What getrandom, or getentropy, does: its bytes come one behind the other, call `k` fails or writes as
-- many bytes as `results k` says, at most those that it is asked for, and `stale k` is what is in the
-- memory of the buffer when call `k` is made.
pub record Source : Type 0 where
  pub bytes : ℕ → ℕ
  pub drawn : ℕ
  pub calls : ℕ
  pub results : ℕ → Option ℕ
  pub stale : ℕ → ℕ → ℕ
  pub is_byte : (k : ℕ) → bytes k < 256
  pub stale_is_byte : (k i : ℕ) → stale k i < 256

abbrev pub bytes_from : (ℕ → ℕ) → ℕ → ℕ → List ℕ
bytes_from bytes zero at = []
bytes_from bytes (suc n) at = bytes at ∷ bytes_from bytes n (at + 1)

-- The bytes that a call with the result `result` writes to a buffer of `buflen` bytes.
abbrev pub bytes_written : Option ℕ → ℕ → ℕ
bytes_written none buflen = 0
bytes_written (some n) buflen = if leb n buflen then n else buflen

-- Byte `i` of a buffer of which the first `n` bytes are written.
unfoldable pub buffer_at : ℕ → Source → ℕ → ℕ
buffer_at n s i = if ltb i n then s.bytes (s.drawn + i) else s.stale s.calls i

-- The result of the call, and the `buflen` bytes of the buffer behind it.
unfoldable pub mish_getrandom : ℕ → Source → Option ℕ × List ℕ × Source
unfolding buffer_at
mish_getrandom buflen s =
    let n = bytes_written (s.results s.calls) buflen in
    (
      s.results s.calls,
      bytes_from (buffer_at n s) buflen 0,
      record s { drawn = s.drawn + n; calls = s.calls + 1 },
    )

-- The callers do not look at the result: behind a call that fails, the number is what was in memory.
unfoldable pub rand_long : Source → ℕ × Source
unfolding mish_getrandom
rand_long s = let (ignored, it, s') = mish_getrandom 8 s in (of_le it, s')

unfoldable pub rand_byte : Source → ℕ × Source
unfolding mish_getrandom
rand_byte s = let (ignored, it, s') = mish_getrandom 1 s in (of_le it, s')

of_le-bytes_from-lt :
    (bytes : ℕ → ℕ) (n at : ℕ) → ((k : ℕ) → bytes k < 256) → of_le (bytes_from bytes n at) < 256 ^ n
unfolding of_le
of_le-bytes_from-lt bytes zero at h = omega arith
of_le-bytes_from-lt bytes (suc n) at h =
    let rest = of_le-bytes_from-lt bytes n (at + 1) h in
    let power = pow-suc 256 n in omega (arith, rest, h at, power)

buffer_at-lt : (n : ℕ) (s : Source) (i : ℕ) → buffer_at n s i < 256
unfolding buffer_at
buffer_at-lt n s i = elim (Bool-cases (ltb i n)) [
  | inl drawn ↦ rw drawn (s.is_byte (s.drawn + i))
  | inr stale ↦ rw stale (s.stale_is_byte s.calls i)
]

pub rand_long-lt : (s : Source) → (rand_long s).0 < 2 ^ 64
unfolding rand_long mish_getrandom
rand_long-lt s = of_le-bytes_from-lt _ 8 0 (buffer_at-lt _ s)

pub rand_byte-lt : (s : Source) → (rand_byte s).0 < 256
unfolding rand_byte mish_getrandom
rand_byte-lt s = of_le-bytes_from-lt _ 1 0 (buffer_at-lt _ s)

-- The operating system's numbers fill the interface of the generators.
abbrev pub getrandom_rng : Rng
getrandom_rng = record {
  State = Source;
  next_long = rand_long;
  next_byte = rand_byte;
  next_long_lt = rand_long-lt;
  next_byte_lt = rand_byte-lt;
}
