-- ===== src/Adapter/Ghidra.antt =====
-- src/worker/ghidra/ghidra.cc: the bytes of the instruction for sleigh, and what it prints.
pub mod Window
use mishegos.Base.{
  ℕ, zero, suc, ◌+◌, ◌-◌, ◌%◌, ◌^◌, Bool, true, false, ◌||◌, Option, none, some, ◌>>=◌, List, [],
  ◌∷◌, ◌++◌, ltb, ◌==◌, if◌then◌else◌,
}
use mishegos.Slots.{OutputSlot, mishegos_dec_maxlen, s_success, s_failure}
use mishegos.Adapter.{to_u16, failed, snprintf}

abbrev pub start_address : ℕ
start_address = 0

-- MyLoadImage; `length` is an int4 that is set from a uint8_t.
pub record LoadImage : Type 0 where
  pub baseaddr : ℕ  -- uintb
  pub length : ℕ
  pub bytes : List ℕ

abbrev pub set_data : List ℕ → ℕ → LoadImage → LoadImage
set_data ptr sz image = record image { length = sz; bytes = ptr }

-- The entry of an array, which the index may miss.
unfoldable pub read_at : List ℕ → ℕ → Option ℕ
read_at [] i = none
read_at (b ∷ bs) zero = some b
read_at (b ∷ bs) (suc i) = read_at bs i

-- `(int4)diff`: from 2^31 on the index is negative, and misses the array.
unfoldable pub read_int4 : List ℕ → ℕ → Option ℕ
read_int4 array diff =
    let index = diff % 2 ^ 32 in if ltb index (2 ^ 31) then read_at array index else none

-- The byte at `curoff`: 0 outside the window from `baseaddr` to `max`.
unfoldable pub load_byte : LoadImage → ℕ → Option ℕ
load_byte image curoff =
    let max = (image.baseaddr + (2 ^ 64 + image.length - 1)) % 2 ^ 64 in
    if ltb curoff image.baseaddr || ltb max curoff
    then some 0
    else read_int4 image.bytes (curoff - image.baseaddr)

-- The loop of `loadFill`, with `n` bytes left from offset `i` on.
unfoldable pub load_bytes : LoadImage → ℕ → ℕ → ℕ → Option (List ℕ)
load_bytes image start zero i = some []
load_bytes image start (suc n) i = do
  b ← load_byte image ((start + i) % 2 ^ 64)
  bs ← load_bytes image start n (i + 1)
  some (b ∷ bs)

unfoldable pub load_fill : LoadImage → ℕ → ℕ → Option (List ℕ)
load_fill image size addr = load_bytes image addr size 0

-- AssemblyMishegos prints an instruction over the slot.
abbrev pub dump : OutputSlot → List ℕ × List ℕ → OutputSlot
dump result (mnem, body) =
    let (len, text) =
      snprintf result.result mishegos_dec_maxlen (mnem ++ (b' ' ∷ (body ++ (b'\n' ∷ [])))) in
    record result { status = s_success; len = to_u16 len; result = text }

unfoldable pub dump_all : OutputSlot → List (List ℕ × List ℕ) → OutputSlot
dump_all result [] = result
dump_all result (d ∷ ds) = dump_all (dump result d) ds

-- An exception leaves no number, and is caught.
abbrev pub by_throw : OutputSlot → Option ℕ → OutputSlot
by_throw result none = failed s_failure result
by_throw result (some ndecoded) = record result { ndecoded = to_u16 ndecoded }

-- `printAssembly` of sleigh reads bytes from the image by `loadFill`; it gives the instructions that it
-- hands to `dump`, and the number of bytes unless it throws an exception.
module _ (print_assembly : (ℕ → ℕ → Option (List ℕ)) → List (List ℕ × List ℕ) × Option ℕ) where
  unfoldable pub ghidra_try_decode : LoadImage → OutputSlot → List ℕ → ℕ → OutputSlot
  ghidra_try_decode loader result raw_insn length =
      let (dumps, ndecoded) = print_assembly (load_fill (set_data raw_insn length loader)) in
      by_throw (dump_all result dumps) ndecoded
