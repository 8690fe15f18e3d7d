-- ===== src/Mish2jsonl/Read.antt =====
-- src/mish2jsonl/mish2jsonl.c: reading cohorts from the fuzzer's output.
use Prim.Native.Nat.{min}
use mishegos.Base.{
  ℕ, zero, suc, ◌+◌, ◌*◌, ◌/◌, Bool, true, not, ◌&&◌, List, [], ◌∷◌, ◌++◌, length, take, drop,
  replicate, ◌==◌, if◌then◌else◌,
}
use mishegos.Bytes.{le_bytes, of_le}
use mishegos.Slots.{InputSlot}

-- `string` is the allocated memory, with the zero byte behind the characters.
pub record MString : Type 0 where
  pub len : ℕ  -- uint64_t
  pub string : List ℕ

pub record WorkerOutput : Type 0 where
  pub status : ℕ  -- uint32_t
  pub ndecoded : ℕ  -- uint16_t
  pub workerno : ℕ  -- uint32_t
  pub workerso : MString
  pub result : MString

pub record CohortResults : Type 0 where
  pub nworkers : ℕ  -- uint32_t
  pub input : InputSlot
  pub outputs : List WorkerOutput

-- The bytes that are left of the file, and `m_finished_parsing`.
pub record Reader : Type 0 where
  pub file : List ℕ
  pub finished : Bool

-- fread over the memory `old`: what the file lacks leaves the memory as it was.
unfoldable pub fread : List ℕ → Reader → List ℕ × Reader
fread old r =
    let got = take (length old) r.file in
    (got ++ drop (length got) old, record r { file = drop (length old) r.file })

-- `rd` counts the whole items that fread could read.
unfoldable pub m_fread : ℕ → ℕ → List ℕ → Reader → List ℕ × Reader
unfolding fread
m_fread size times old r =
    let rd = min (length r.file) (size * times) / size in
    let (memory, r') = fread old r in
    (memory, if rd == 0 && not (size * times == 0) then record r' { finished = true } else r')

-- The length is read over the low bytes of a zero, and the characters over zeros.
unfoldable pub read_string : ℕ → Reader → MString × Reader
read_string len_size r =
    let (low, r') = m_fread len_size 1 (take len_size (le_bytes 8 0)) r in
    let string_length = of_le (low ++ drop len_size (le_bytes 8 0)) in
    let (chars, r'') = m_fread 1 string_length (replicate string_length 0) r' in
    (record { len = string_length; string = chars ++ (0 ∷ []) }, r'')

-- One round of the loop of `read_next`, over what malloc left in the entry.
unfoldable pub read_worker : WorkerOutput → Reader → WorkerOutput × Reader
read_worker o r =
    let (workerso, r1) = read_string 8 r in
    let (status, r2) = m_fread 4 1 (le_bytes 4 o.status) r1 in
    let (ndecoded, r3) = m_fread 2 1 (le_bytes 2 o.ndecoded) r2 in
    let (result, r4) = read_string 2 r3 in
    (
      record o {
        status = of_le status;
        ndecoded = of_le ndecoded;
        workerso = workerso;
        result = result;
      },
      r4,
    )

-- The loop, with `n` rounds left from index `i` on; `fresh` is the memory from malloc.
unfoldable pub read_workers : (ℕ → WorkerOutput) → ℕ → ℕ → Reader → List WorkerOutput × Reader
read_workers fresh zero i r = ([], r)
read_workers fresh (suc n) i r =
    let (o, r') = read_worker (fresh i) r in
    let (os, r'') = read_workers fresh n (i + 1) r' in (o ∷ os, r'')

abbrev pub input_of : List ℕ → InputSlot
input_of [] = record { len = 0; raw_insn = [] }
input_of (len ∷ raw) = record { len = len; raw_insn = raw }

-- `results` is static: what the file lacks stays from the call before.
unfoldable pub read_next :
    (ℕ → WorkerOutput) → CohortResults → Reader → Bool × CohortResults × Reader
read_next fresh old r =
    let (count, r1) = fread (le_bytes 4 old.nworkers) r in
    let (input, r2) = m_fread 16 1 (old.input.len ∷ old.input.raw_insn) r1 in
    let (outputs, r3) = read_workers fresh (of_le count) 0 r2 in
    (
      not r3.finished,
      record { nworkers = of_le count; input = input_of input; outputs = outputs },
      r3,
    )
