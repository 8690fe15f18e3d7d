-- ===== src/Fuzzer/Process.antt =====
-- src/mishegos/mishegos.c: `process` decides whether the outputs for one input are kept, and writes them.
pub mod Filter
use mishegos.Base.{
  ℕ, ◌+◌, ◌-◌, Bool, true, false, not, ◌&&◌, ◌||◌, Option, none, some, ◌>>=◌, List, [], ◌∷◌, ◌++◌,
  length, take, leb, ◌==◌, if◌then◌else◌,
}
use mishegos.Base.Int.{ℤ, pos, negsuc, ◌+ℤ◌, leb_ℤ, ltb_ℤ, eq_ℤ}
use mishegos.Bytes.{le_bytes}
use mishegos.Slots.{InputSlot, OutputSlot, mishegos_dec_maxlen, mishegos_max_nworkers, s_success}

-- The static variables that the options -s and -n set.
pub record FilterConfig : Type 0 where
  pub min_success : ℤ
  pub max_success : ℤ
  pub ndecoded_same : Bool

abbrev pub default_filter : FilterConfig
default_filter = record {
  min_success = pos 1;
  max_success = pos mishegos_max_nworkers;
  ndecoded_same = false;
}

-- Negative bounds count from the number of workers; `main` does this once the workers are started.
unfoldable pub count_from_end : ℕ → ℤ → ℤ
count_from_end nworkers bound = if ltb_ℤ bound (pos 0) then bound +ℤ pos (nworkers + 1) else bound

unfoldable pub resolve_filter : ℕ → FilterConfig → FilterConfig
unfolding count_from_end
resolve_filter nworkers f = record f {
  min_success = count_from_end nworkers f.min_success;
  max_success = count_from_end nworkers f.max_success;
}

-- What `process` reads of one worker: its shared object's path, and its output slot for the input.
pub record WorkerSlot : Type 0 where
  pub soname_len : ℕ  -- size_t
  pub soname : List ℕ
  pub output : OutputSlot

-- The variables of the loop that counts.
pub record Scan : Type 0 where
  pub num_success : ℕ
  pub ndecoded_same : Bool
  pub last_ndecoded : ℤ

abbrev pub scan_start : Scan
scan_start = record { num_success = 0; ndecoded_same = true; last_ndecoded = negsuc 0 }

unfoldable pub scan_output : Scan → OutputSlot → Scan
scan_output s o =
    if o.status == s_success
    then (if eq_ℤ s.last_ndecoded (negsuc 0)
        then record s { num_success = s.num_success + 1; last_ndecoded = pos o.ndecoded }
        else if eq_ℤ s.last_ndecoded (pos o.ndecoded)
        then record s { num_success = s.num_success + 1 }
        else record s { num_success = s.num_success + 1; ndecoded_same = false })
    else s

unfoldable pub scan : Scan → List WorkerSlot → Scan
scan s [] = s
scan s (w ∷ ws) = scan (scan_output s w.output) ws

unfoldable pub keep : FilterConfig → List WorkerSlot → Bool
unfolding scan scan_output
keep f ws =
    let s = scan scan_start ws in
    (leb_ℤ f.min_success (pos s.num_success) && leb_ℤ (pos s.num_success) f.max_success)
    || (f.ndecoded_same && not s.ndecoded_same)

-- `write_output(data, size)`: the first `size` bytes of an object, or `none` past its end.
unfoldable pub write_output : List ℕ → ℕ → Option (List ℕ)
write_output memory size = if leb size (length memory) then some (take size memory) else none

abbrev pub input_memory : InputSlot → List ℕ
input_memory i = i.len ∷ i.raw_insn

abbrev pub output_memory : OutputSlot → List ℕ
output_memory o = le_bytes 4 o.status ++ (le_bytes 2 o.ndecoded ++ (le_bytes 2 o.len ++ o.result))

-- One round of the second loop: the path behind its length, and the output slot without the unused
-- end of its `result`.
unfoldable pub write_worker : WorkerSlot → Option (List ℕ)
unfolding write_output
write_worker w = do
  size ← write_output (le_bytes 8 w.soname_len) 8
  path ← write_output w.soname w.soname_len
  slot ← write_output (output_memory w.output) (256 - mishegos_dec_maxlen + w.output.len)
  some (size ++ (path ++ slot))

unfoldable pub write_workers : List WorkerSlot → Option (List ℕ)
unfolding write_worker
write_workers [] = some []
write_workers (w ∷ ws) = do bytes ← write_worker w; rest ← write_workers ws; some (bytes ++ rest)

-- The bytes that `process` writes to stdout.
unfoldable pub process : FilterConfig → InputSlot → List WorkerSlot → Option (List ℕ)
unfolding keep write_workers
process f input ws =
    if keep f ws
    then (do
      count ← write_output (le_bytes 4 (length ws)) 4
      slot ← write_output (input_memory input) 16
      outputs ← write_workers ws
      some (count ++ (slot ++ outputs)))
    else some []
