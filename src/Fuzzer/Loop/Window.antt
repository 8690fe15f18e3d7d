-- ===== src/Fuzzer/Loop/Window.antt =====
-- src/mishegos/mishegos.c: the chunks of the ring, read round from an index on.
use mishegos.Base.{
  ℕ, zero, suc, ◌+◌, ◌-◌, ◌%◌, ◌<◌, ◌≡◌, refl, sym, true, false, List, [], ◌++◌, ◌==◌,
  if◌then◌else◌, arith, append-nil, append_assoc, ==_iff,
}
use mishegos.Slots.{InputSlot}
use mishegos.Fuzzer.Worker.{InputChunk, mishegos_num_chunks, update}
use mishegos.Fuzzer.Loop.{slots}

abbrev pub next_idx : ℕ → ℕ
next_idx h = if h + 1 == mishegos_num_chunks then 0 else h + 1

-- The steps round the ring from `h` to `i`.
abbrev pub distance : ℕ → ℕ → ℕ
distance h i = (i + 16 - h) % 16

-- The inputs of `n` chunks from index `h` on.
unfoldable pub window : (ℕ → InputChunk) → ℕ → ℕ → List InputSlot
window chunks h zero = []
window chunks h (suc n) = slots (chunks h) ++ window chunks (next_idx h) n

pub window-cons :
    (chunks : ℕ → InputChunk) (h n : ℕ)
    → window chunks h (suc n) ≡ slots (chunks h) ++ window chunks (next_idx h) n
unfolding window
window-cons chunks h n = refl

pub step_nearer :
    (h i n : ℕ)
    → h < 16
    → i < 16
    → distance h i ≡ suc n
    → ((h == i) ≡ false) × (next_idx h < 16) × (distance (next_idx h) i ≡ n)
step_nearer h i n hh hi e = ground arith

-- A window that ends with the chunk at `i` ends with what that chunk is set to.
pub window-update :
    (chunks : ℕ → InputChunk) (ic : InputChunk) (n h i : ℕ)
    → h < 16
    → i < 16
    → distance h i ≡ n
    → window (update chunks i ic) h (suc n) ≡ window chunks h n ++ slots ic
window-update chunks ic zero h i hh hi e =
    let same : h ≡ i = omega arith in
    let found : (i == i) ≡ true = (==_iff i i).1 refl in
    unfold window in rw (same, found) (append-nil (slots ic))
window-update chunks ic (suc n) h i hh hi e =
    let (ne, hn, en) = step_nearer h i n hh hi e in
    rw
      (
        window-cons (update chunks i ic) h (suc n),
        window-cons chunks h n,
        window-update chunks ic n (next_idx h) i hn hi en,
        ne,
      )
      (sym (append_assoc (slots (chunks h)) (window chunks (next_idx h) n) (slots ic)))
