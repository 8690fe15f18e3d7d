-- ===== src/Cohort/Layout.antt =====
-- The bytes of a cohort, and that the fuzzer writes them.
use mishegos.Base.{
  ℕ, ◌+◌, ◌-◌, ◌≤◌, ◌<◌, ◌^◌, ◌≡◌, refl, sym, ap, ◌∙◌, some, List, [], ◌∷◌, ◌++◌, length, take, All,
  arith, le→leb, if◌then◌else◌, take_append, length-append, append-nil, Bool-cases, inl, inr,
}
use Prim.Native.Nat.add
use mishegos.Bytes.{le_bytes, length-le_bytes}
use mishegos.Slots.{InputSlot, OutputSlot, mishegos_insn_maxlen, mishegos_dec_maxlen}
use mishegos.Fuzzer.Process.{
  FilterConfig, WorkerSlot, keep, write_output, output_memory, input_memory, write_worker,
  write_workers, process,
}

-- An output slot in range, whose `len` stays inside `result`, and its worker's path.
pub record IsWorker (w : WorkerSlot) : Type 0 where
  pub counted : w.soname_len ≡ length w.soname
  pub soname_lt : w.soname_len < 2 ^ 64
  pub status_lt : w.output.status < 2 ^ 32
  pub ndecoded_lt : w.output.ndecoded < 2 ^ 16
  pub short : w.output.len ≤ mishegos_dec_maxlen
  pub size : length w.output.result ≡ mishegos_dec_maxlen

unfoldable pub worker_bytes : WorkerSlot → List ℕ
worker_bytes w =
    le_bytes 8 w.soname_len
    ++ (w.soname
        ++ (le_bytes 4 w.output.status
            ++ (le_bytes 2 w.output.ndecoded
                ++ (le_bytes 2 w.output.len ++ take w.output.len w.output.result))))

unfoldable pub workers_bytes : List WorkerSlot → List ℕ
workers_bytes [] = []
workers_bytes (w ∷ ws) = worker_bytes w ++ workers_bytes ws

unfoldable pub cohort_bytes : InputSlot → List WorkerSlot → List ℕ
cohort_bytes input ws = le_bytes 4 (length ws) ++ ((input.len ∷ input.raw_insn) ++ workers_bytes ws)

-- Cohorts one behind the other.
unfoldable pub file_bytes : List (InputSlot × List WorkerSlot) → List ℕ
file_bytes [] = []
file_bytes (s ∷ ss) = cohort_bytes s.0 s.1 ++ file_bytes ss

take_past {ℓ} :
    {A : Type ℓ} (xs ys : List A) (k : ℕ) → take (length xs + k) (xs ++ ys) ≡ xs ++ take k ys
take_past [] ys k = rw add.zero
take_past (x ∷ xs) ys k = rw add.suc (ap (x ∷◌) (take_past xs ys k))

-- A front of known length.
take_front {ℓ} :
    {A : Type ℓ} (n k : ℕ) (xs ys : List A)
    → length xs ≡ n
    → take (n + k) (xs ++ ys) ≡ xs ++ take k ys
take_front n k xs ys e = rw (← e) (take_past xs ys k)

write_all : (l : List ℕ) (n : ℕ) → length l ≡ n → write_output l n ≡ some l
unfolding write_output
write_all l n e =
    rw (le→leb n (length l) (omega arith), ← e)
      (ap some (ap (take (length l)) (sym (append-nil l)) ∙ take_append l []))

abbrev slot_bytes : OutputSlot → List ℕ
slot_bytes o =
    le_bytes 4 o.status ++ (le_bytes 2 o.ndecoded ++ (le_bytes 2 o.len ++ take o.len o.result))

length-output_memory : (o : OutputSlot) → length (output_memory o) ≡ 8 + length o.result
length-output_memory o =
    let a =
      length-append (le_bytes 4 o.status)
        (le_bytes 2 o.ndecoded ++ (le_bytes 2 o.len ++ o.result)) in
    let b = length-append (le_bytes 2 o.ndecoded) (le_bytes 2 o.len ++ o.result) in
    let c = length-append (le_bytes 2 o.len) o.result in
    omega (arith, length-le_bytes 4 o.status, length-le_bytes 2 o.ndecoded, length-le_bytes 2 o.len)

take-output_memory :
    (o : OutputSlot) → take (4 + (2 + (2 + o.len))) (output_memory o) ≡ slot_bytes o
take-output_memory o =
    take_front 4 _ _ _ (length-le_bytes 4 o.status)
    ∙ ap (le_bytes 4 o.status ++◌) (
        take_front 2 _ _ _ (length-le_bytes 2 o.ndecoded)
        ∙ ap (le_bytes 2 o.ndecoded ++◌) (take_front 2 _ _ _ (length-le_bytes 2 o.len)))

-- The slot is cut behind the characters of its result, and nothing behind the slot is read.
write_slot :
    (o : OutputSlot)
    → o.len ≤ mishegos_dec_maxlen
    → length o.result ≡ mishegos_dec_maxlen
    → write_output (output_memory o) (256 - mishegos_dec_maxlen + o.len) ≡ some (slot_bytes o)
unfolding write_output
write_slot o short size =
    let total : 8 + o.len ≡ 4 + (2 + (2 + o.len)) = omega arith in
    rw
      (le→leb (8 + o.len) (length (output_memory o)) (omega (arith, length-output_memory o)), total)
      (ap some (take-output_memory o))

write_worker-bytes : (w : WorkerSlot) → IsWorker w → write_worker w ≡ some (worker_bytes w)
unfolding write_worker worker_bytes
write_worker-bytes w v = rw (
  write_all (le_bytes 8 w.soname_len) 8 (length-le_bytes 8 w.soname_len),
  write_all w.soname w.soname_len (sym v.counted),
  write_slot w.output v.short v.size,
)

write_workers-bytes :
    (ws : List WorkerSlot) → All IsWorker ws → write_workers ws ≡ some (workers_bytes ws)
unfolding write_workers workers_bytes
write_workers-bytes [] v = refl
write_workers-bytes (w ∷ ws) v = rw (write_worker-bytes w v.0, write_workers-bytes ws v.1)

-- A sample that is kept is written as one cohort, and one that is not kept leaves no byte; on slots
-- in range no write reads past the end of an object.
pub process-cohort_bytes :
    (f : FilterConfig) (input : InputSlot) (ws : List WorkerSlot)
    → length input.raw_insn ≡ mishegos_insn_maxlen
    → All IsWorker ws
    → process f input ws ≡ some (if keep f ws then cohort_bytes input ws else [])
unfolding process cohort_bytes
process-cohort_bytes f input ws full v = elim (Bool-cases (keep f ws)) [
  | inl kept ↦ rw (
    kept,
    write_all (le_bytes 4 (length ws)) 4 (length-le_bytes 4 (length ws)),
    write_all (input_memory input) 16 (omega arith),
    write_workers-bytes ws v,
  )
  | inr dropped ↦ rw dropped
]
