-- ===== src/Tests/Adapters.antt =====
-- Adapters over a small decoder library.
use mishegos.Base.{
  drop, length, ◌||◌, ◌++◌, ℕ, refl, some, take, ◌≡◌, arith, List, [], ◌∷◌, replicate, ◌==◌,
  if◌then◌else◌,
}
use mishegos.Slots.{OutputSlot, s_failure, s_partial, s_success}
use mishegos.Adapter.{to_u16}
use mishegos.Adapter.Bfd.{strstr, bad, bfd_try_decode}
use mishegos.Adapter.Bfd.Line.{memory, line_of, bfd_try_decode-line}
use mishegos.Adapter.Every.{Library, status_with}
use mishegos.Adapter.Ghidra.{LoadImage, load_fill}
use mishegos.Adapter.Ghidra.Window.{bytes_at, load_fill-bytes_at}

-- It decodes one byte to an instruction of its value, and prints "a".
abbrev decode_byte : List ℕ → ℕ → ℕ × ℕ
decode_byte [] n = (2, 0)
decode_byte (b ∷ bs) n = (if n == 0 then 2 else 0, b)

abbrev line : List ℕ
line = b'a' ∷ 0 ∷ replicate 246 7

abbrev print_status : ℕ → List ℕ → ℕ × List ℕ
print_status insn memory = (0, line)

abbrev empty : OutputSlot
empty = record { status = 7; ndecoded = 0; len = 0; result = replicate 248 9 }

abbrev small_library : Library
small_library = Library.zydis ℕ decode_byte (λ s. s == 0) 2 print_status (λ insn. 1)

-- No byte is a partial decoding.
status_short : status_with small_library empty [] 0 ≡ s_partial
unfolding status_with
status_short = refl

abbrev two_bytes : LoadImage
two_bytes = record { baseaddr = 0; length = 2; bytes = 0x0f ∷ 0xa2 ∷ replicate 13 0xcc }

load_fill-bytes_at_example :
    load_fill two_bytes 16 1 ≡ some (bytes_at (take two_bytes.length two_bytes.bytes) 1 16)
load_fill-bytes_at_example =
    load_fill-bytes_at two_bytes 16 1
      (record { at_zero = refl; nonempty = omega arith; small = omega arith; whole = omega arith })
      (omega arith)

-- libopcodes prints "nop" in two pieces.
abbrev two_pieces : List ℕ → ℕ → List (List ℕ) × ℕ
two_pieces raw n = ((b'n' ∷ []) ∷ (b'o' ∷ b'p' ∷ []) ∷ [], 1)

bfd_try_decode-line_example :
    bfd_try_decode two_pieces empty (0x90 ∷ []) 1
    ≡ some (record {
      status =
          if (1 == 0) || strstr bad (memory (line_of (two_pieces [] 1).0))
          then s_failure
          else s_success;
      ndecoded = to_u16 1;
      len = length (line_of (two_pieces [] 1).0);
      result =
          line_of (two_pieces [] 1).0 ++ drop (length (line_of (two_pieces [] 1).0)) empty.result;
    })
bfd_try_decode-line_example =
    bfd_try_decode-line two_pieces empty (0x90 ∷ []) 1 (two_pieces [] 1).0 1 refl (omega arith) refl
