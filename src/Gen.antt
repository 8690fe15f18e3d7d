-- ===== src/Gen.antt =====
-- Code that draws random numbers and writes into fixed buffers (src/mishegos/mutator.c): a state
-- monad over the generator's state, in which a memory access out of bounds is `none`.
pub mod Returns
pub mod Keeps
use mishegos.Base.{
  ℕ, ◌+◌, ◌≤◌, ◌<◌, ◌^◌, ◌≡◌, Option, none, some, List, ◌++◌, leb, if◌then◌else◌, length, take,
  drop,
}

-- `rand_long` and `rand_byte`, whichever of the two generators is compiled in.
pub record Rng : Type 1 where
  pub State : Type 0
  pub next_long : State → ℕ × State
  pub next_byte : State → ℕ × State
  pub next_long_lt : (s : State) → (next_long s).0 < 2 ^ 64
  pub next_byte_lt : (s : State) → (next_byte s).0 < 256

abbrev pub Gen : Type 0 → Type 0 → Type 0
Gen S A = S → Option (A × S)

infixl 5 ◌>>=◌
abbrev pub ◌>>=◌ : {S A B : Type 0} → Gen S A → (A → Gen S B) → Gen S B
◌>>=◌ m f s = elim (m s) [ none ↦ none | some (a, s') ↦ f a s' ]

abbrev pub pure : {S A : Type 0} → A → Gen S A
pure a s = some (a, s)

unfoldable pub rand_long : (g : Rng) → Gen g.State ℕ
rand_long g s = some (g.next_long s)

unfoldable pub rand_byte : (g : Rng) → Gen g.State ℕ
rand_byte g s = some (g.next_byte s)

-- Copy `src` over the bytes of `buf` from `off` on.
unfoldable pub overwrite : List ℕ → ℕ → List ℕ → Option (List ℕ)
overwrite buf off src =
    if leb (off + length src) (length buf)
    then some (take off buf ++ (src ++ drop (off + length src) buf))
    else none

-- memcpy into `buf + off`, and the assignment `buf[off] = b` for a single byte.
unfoldable pub store : {S : Type 0} → List ℕ → ℕ → List ℕ → Gen S (List ℕ)
unfolding overwrite
store buf off src s = elim (overwrite buf off src) [ none ↦ none | some buf' ↦ some (buf', s) ]

-- The `n` bytes of `buf` from `off` on, as memcpy reads them.
unfoldable pub load : {S : Type 0} → List ℕ → ℕ → ℕ → Gen S (List ℕ)
load buf off n s = if leb (off + n) (length buf) then some (take n (drop off buf), s) else none
