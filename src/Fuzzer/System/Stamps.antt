-- ===== src/Fuzzer/System/Stamps.antt =====
-- src/mishegos/mishegos.c: chunks by the number in which they were handed over, and the workers that
-- still owe one.
use mishegos.Base.{
  ℕ, zero, suc, ◌+◌, ◌*◌, ◌^◌, ◌≤◌, ◌<◌, ◌≡◌, ◌≢◌, refl, sym, ap, ◌⊎◌, true, leb, leb→le, ==_iff,
  sum_below, sum_below-le, sum_below-term, sum_below-zero, sum_below-change, fun_ext, ◌==◌,
  if◌then◌else◌, arith, Bool-cases, inl, inr, false,
}
use mishegos.Fuzzer.Worker.{InputChunk, update, add_workers}

-- The number of the chunk that was handed over last at index `j`, plus 16; `j` if there was none.
abbrev pub stamp : (ℕ → InputChunk) → ℕ → ℕ
stamp chunks j = (chunks j).generation * 16 + j

-- A chunk without its counter.
abbrev pub job : InputChunk → InputChunk
job ic = record ic { remaining_workers = 0 }

abbrev pub jobs : (ℕ → InputChunk) → ℕ → InputChunk
jobs chunks j = job (chunks j)

pub jobs-add_workers :
    (chunks : ℕ → InputChunk) (d idx : ℕ)
    → jobs (update chunks idx (add_workers d (chunks idx))) ≡ jobs chunks
jobs-add_workers chunks d idx = fun_ext λ j. elim (Bool-cases (j == idx)) [
  | inl here ↦
      let same : j ≡ idx = ground arith in rw here (ap (λ (k : ℕ). job (chunks k)) (sym same))
  | inr other ↦ rw other refl
]

-- The counters are numbers of 32 bits.
abbrev pub Words : (ℕ → InputChunk) → Type 0
Words chunks = (j : ℕ) → (chunks j).remaining_workers < 2 ^ 32

pub Words-update :
    (chunks : ℕ → InputChunk) (idx : ℕ) (ic : InputChunk)
    → Words chunks
    → ic.remaining_workers < 2 ^ 32
    → Words (update chunks idx ic)
Words-update chunks idx ic words lt j = elim (Bool-cases (j == idx)) [
  | inl here ↦ rw here lt
  | inr other ↦ rw other (words j)
]

-- A worker that ended `served` chunks owes those with a later stamp.
abbrev pub due : ℕ → ℕ → ℕ
due served at = if leb (served + 16) at then 1 else 0

pub due-next : (served at : ℕ) → at ≡ served + 16 → (due served at ≡ 1) × (due (served + 1) at ≡ 0)
due-next served at e = (ground arith, ground arith)

pub due-other : (served at : ℕ) → at ≢ served + 16 → due served at ≡ due (served + 1) at
due-other served at e = ground arith

-- Chunks at two indices have two numbers.
pub stamp-apart :
    (chunks : ℕ → InputChunk) (j x k : ℕ)
    → j < 16
    → x < 16
    → (j == x) ≡ false
    → stamp chunks x ≡ k
    → stamp chunks j ≢ k
stamp-apart chunks j x k hj hx other e f = let apart : j ≢ x = ground arith in omega (arith, apart)

-- The number of the first `n` workers that owe the chunk with a stamp.
unfoldable pub dues : (ℕ → ℕ) → ℕ → ℕ → ℕ
dues served at n = sum_below (λ i. due (served i) at) n

pub dues-le : (served : ℕ → ℕ) (at n : ℕ) → dues served at n ≤ n
unfolding dues
dues-le served at n = sum_below-le (λ i. due (served i) at) n (λ k. ground arith)

pub dues-zero : (served : ℕ → ℕ) (at n i : ℕ) → dues served at n ≡ 0 → i < n → at < served i + 16
unfolding dues
dues-zero served at n i e lt =
    let below = sum_below-term (λ i. due (served i) at) i n lt in ground (arith, below)

pub dues-none : (served : ℕ → ℕ) (at n : ℕ) → ((i : ℕ) → at < served i + 16) → dues served at n ≡ 0
unfolding dues
dues-none served at n h = sum_below-zero (λ i. due (served i) at) n (λ i. ground (arith, h i))

pub dues-all :
    (served : ℕ → ℕ) (at n : ℕ) → ((i : ℕ) → i < n → served i + 16 ≤ at) → dues served at n ≡ n
unfolding dues sum_below
dues-all served at zero h = refl
dues-all served at (suc n) h =
    ground (arith, dues-all served at n (λ i lt. h i (omega arith)), h n (omega arith))

pub dues-some :
    (served : ℕ → ℕ) (at n : ℕ)
    → (dues served at n ≡ 0) ⊎ ((i : ℕ) × (i < n) × (served i + 16 ≤ at))
unfolding dues sum_below
dues-some served at zero = inl refl
dues-some served at (suc n) = elim (Bool-cases (leb (served n + 16) at)) [
  | inl owes ↦ inr (n, omega arith, leb→le _ _ owes)
  | inr done ↦ elim (dues-some served at n) [
    | inl none ↦ inl (rw (done, none) refl)
    | inr (i, lt, le) ↦ inr (i, omega arith, le)
  ]
]

-- One worker goes on.
pub dues-update :
    (served : ℕ → ℕ) (v i at n : ℕ)
    → i < n
    → dues (update served i v) at n + due (served i) at ≡ dues served at n + due v at
unfolding dues
dues-update served v i at n lt =
    let here : (i == i) ≡ true = (==_iff i i).1 refl in
    let changed =
      sum_below-change (λ k. due (served k) at) (λ k. due (update served i v k) at) i n lt
        (λ k other. rw other refl) in
    rw here at changed
