-- ===== src/Cohort/RoundTrip.antt =====
-- mish2jsonl reads back the cohorts that the fuzzer writes.
use Prim.Native.Nat.{min}
use mishegos.Base.{
  ℕ, zero, suc, ◌+◌, ◌*◌, ◌/◌, ◌≤◌, ◌<◌, ◌^◌, ◌≡◌, refl, sym, ◌∙◌, true, false, not, ◌&&◌, List, [],
  ◌∷◌, ◌++◌, length, take, drop, All, arith, ◌==◌, replicate, take_append, drop_append,
  length-append, length-replicate, append-nil, append_assoc, drop_all, length-take,
}
use native.Mathlib.Nat.{mul-div_right, mul-zero}
use mishegos.Bytes.{le_bytes, of_le, length-le_bytes, of_le-le_bytes}
use mishegos.Slots.{InputSlot, mishegos_insn_maxlen}
use mishegos.Fuzzer.Process.{WorkerSlot}
use mishegos.Mish2jsonl.Read.{
  WorkerOutput, CohortResults, Reader, fread, m_fread, read_string, read_worker, read_workers,
  read_next,
}
use mishegos.Cohort.Layout.{IsWorker, worker_bytes, workers_bytes, cohort_bytes}

abbrev at : List ℕ → Reader
at file = record { file = file; finished = false }

-- A read of bytes that the file has.
fread_exact :
    (old bytes rest : List ℕ)
    → length bytes ≡ length old
    → fread old (at (bytes ++ rest)) ≡ (bytes, at rest)
unfolding fread
fread_exact old bytes rest e = rw (
  ← e,
  take_append bytes rest,
  drop_append bytes rest,
  drop_all (length bytes) old (omega arith),
  append-nil bytes,
)

-- A read of no item is no end of the file if it asks for none.
no_error : (size times : ℕ) → (times == 0 && not (size * times == 0)) ≡ false
no_error size zero = rw (mul-zero size)
no_error size (suc times) = ground arith

m_fread_exact :
    (size times : ℕ) (old bytes rest : List ℕ)
    → 1 ≤ size
    → length old ≡ size * times
    → length bytes ≡ size * times
    → m_fread size times old (at (bytes ++ rest)) ≡ (bytes, at rest)
unfolding m_fread
m_fread_exact size times old bytes rest pos eo eb =
    let whole : min (length (bytes ++ rest)) (size * times) ≡ size * times =
      omega (arith, length-append bytes rest) in
    let rd : size * times / size ≡ times = mul-div_right times pos in
    rw (whole, rd, no_error size times) (fread_exact old bytes rest (eb ∙ sym eo))

of_le_zeros : (xs ys : List ℕ) → All (λ b. b ≡ 0) ys → of_le (xs ++ ys) ≡ of_le xs
unfolding of_le
of_le_zeros [] [] h = refl
of_le_zeros [] (y ∷ ys) h = omega (arith, h.0, of_le_zeros [] ys h.1)
of_le_zeros (x ∷ xs) ys h = omega (arith, of_le_zeros xs ys h)

-- A string behind a length of `n` bytes.
read_string_exact :
    (n len : ℕ) (chars rest : List ℕ)
    → n ≤ 8
    → 1 ≤ n
    → All (λ b. b ≡ 0) (drop n (le_bytes 8 0))
    → len ≡ length chars
    → len < 256 ^ n
    → read_string n (at (le_bytes n len ++ (chars ++ rest)))
      ≡ (record { len = len; string = chars ++ (0 ∷ []) }, at rest)
unfolding read_string
read_string_exact n len chars rest short pos zeros e lt =
    let back : of_le (le_bytes n len ++ drop n (le_bytes 8 0)) ≡ len =
      of_le_zeros (le_bytes n len) _ zeros ∙ of_le-le_bytes n len lt in
    rw (
      m_fread_exact n 1 (take n (le_bytes 8 0)) (le_bytes n len) (chars ++ rest) pos
          (length-take n (le_bytes 8 0) (omega (arith, length-le_bytes 8 0)) ∙ omega arith)
          (length-le_bytes n len ∙ omega arith),
      back,
      m_fread_exact 1 len (replicate len 0) chars rest (omega arith)
          (length-replicate len 0 ∙ omega arith) (omega arith),
    )

-- One integer of `n` bytes, over the memory of another.
word_exact :
    (n old v : ℕ) (rest : List ℕ)
    → 1 ≤ n
    → m_fread n 1 (le_bytes n old) (at (le_bytes n v ++ rest)) ≡ (le_bytes n v, at rest)
word_exact n old v rest pos =
    m_fread_exact n 1 (le_bytes n old) (le_bytes n v) rest pos (length-le_bytes n old ∙ omega arith)
      (length-le_bytes n v ∙ omega arith)

-- What the reader makes of a worker's part, over the memory `fresh` that it did not clear.
unfoldable pub decoded : WorkerOutput → WorkerSlot → WorkerOutput
decoded fresh w = record {
  status = w.output.status;
  ndecoded = w.output.ndecoded;
  workerno = fresh.workerno;
  workerso = record { len = w.soname_len; string = w.soname ++ (0 ∷ []) };
  result = record { len = w.output.len; string = take w.output.len w.output.result ++ (0 ∷ []) };
}

read_worker_exact :
    (fresh : WorkerOutput) (w : WorkerSlot) (rest : List ℕ)
    → IsWorker w
    → read_worker fresh (at (worker_bytes w ++ rest)) ≡ (decoded fresh w, at rest)
unfolding read_worker worker_bytes decoded
read_worker_exact fresh w rest v =
    let o = w.output in
    let text = take o.len o.result in
    let nt : length text ≡ o.len = length-take o.len o.result (omega (arith, v.size, v.short)) in
    let after = le_bytes 2 o.len ++ (text ++ rest) in
    simp append_assoc (
      rw (
        read_string_exact 8 w.soname_len w.soname
            (le_bytes 4 o.status ++ (le_bytes 2 o.ndecoded ++ after)) (omega arith) (omega arith)
            (unfold le_bytes in tt) v.counted v.soname_lt,
        word_exact 4 fresh.status o.status (le_bytes 2 o.ndecoded ++ after) (omega arith),
        word_exact 2 fresh.ndecoded o.ndecoded after (omega arith),
        read_string_exact 2 o.len text rest (omega arith) (omega arith)
            (unfold le_bytes in omega arith) (sym nt) (omega (arith, v.short)),
        of_le-le_bytes 4 o.status v.status_lt,
        of_le-le_bytes 2 o.ndecoded v.ndecoded_lt,
      ))

unfoldable pub decoded_all : (ℕ → WorkerOutput) → ℕ → List WorkerSlot → List WorkerOutput
unfolding decoded
decoded_all fresh i [] = []
decoded_all fresh i (w ∷ ws) = decoded (fresh i) w ∷ decoded_all fresh (i + 1) ws

read_workers_exact :
    (fresh : ℕ → WorkerOutput) (i : ℕ) (ws : List WorkerSlot) (rest : List ℕ)
    → All IsWorker ws
    → read_workers fresh (length ws) i (at (workers_bytes ws ++ rest))
      ≡ (decoded_all fresh i ws, at rest)
unfolding read_workers workers_bytes decoded_all
read_workers_exact fresh i [] rest v = refl
read_workers_exact fresh i (w ∷ ws) rest v = rw (
  append_assoc (worker_bytes w) (workers_bytes ws) rest,
  read_worker_exact (fresh i) w (workers_bytes ws ++ rest) v.0,
  read_workers_exact fresh (i + 1) ws rest v.1,
)

-- Whatever the static `results` and the memory from malloc held, the reader gets back from a cohort
-- its input and, for each worker in order, the path, the status, the number of decoded bytes and the
-- decoded text; it is left at the byte behind the cohort, and has not found the end of the file.
-- The number of the worker, which no cohort holds, stays what malloc left.
pub read_next-cohort_bytes :
    (fresh : ℕ → WorkerOutput) (old : CohortResults) (input : InputSlot) (ws : List WorkerSlot)
    (rest : List ℕ)
    → length old.input.raw_insn ≡ mishegos_insn_maxlen
    → length input.raw_insn ≡ mishegos_insn_maxlen
    → length ws < 2 ^ 32
    → All IsWorker ws
    → read_next fresh old (record { file = cohort_bytes input ws ++ rest; finished = false }) ≡ (
      true,
      record { nworkers = length ws; input = input; outputs = decoded_all fresh 0 ws },
      record { file = rest; finished = false },
    )
unfolding read_next cohort_bytes
read_next-cohort_bytes fresh old input ws rest size full few v = simp append_assoc (
    rw (
      fread_exact (le_bytes 4 old.nworkers) (le_bytes 4 (length ws)) _
          (length-le_bytes 4 (length ws) ∙ sym (length-le_bytes 4 old.nworkers)),
      of_le-le_bytes 4 (length ws) few,
      m_fread_exact 16 1 (old.input.len ∷ old.input.raw_insn) (input.len ∷ input.raw_insn)
          (workers_bytes ws ++ rest) (omega arith) (omega arith) (omega arith),
      read_workers_exact fresh 0 ws rest v,
    ))
