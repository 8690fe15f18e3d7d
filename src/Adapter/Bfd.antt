-- ===== src/Adapter/Bfd.antt =====
-- src/worker/bfd/bfd.c: libopcodes prints an instruction in pieces into `disasm_buf`.
pub mod Line
use mishegos.Base.{
  ℕ, ◌+◌, ◌-◌, Bool, true, false, ◌&&◌, ◌||◌, Option, none, some, ◌>>=◌, List, [], ◌∷◌, ◌++◌,
  length, take, drop, replicate, leb, ltb, ◌==◌, if◌then◌else◌,
}
use mishegos.Slots.{OutputSlot, mishegos_dec_maxlen, s_success, s_failure}
use mishegos.Adapter.{snprintf, to_u16}

-- `disasm_buf` and `disasm_off`.
pub record Disasm : Type 0 where
  pub buf : List ℕ
  pub off : ℕ

-- One call of `dis_vfprintf` with a formatted text; `none` is a failed assertion.
unfoldable pub dis_vfprintf : Disasm → List ℕ → Option Disasm
unfolding snprintf
dis_vfprintf d text =
    let (bytes_written, rest) = snprintf (drop d.off d.buf) (mishegos_dec_maxlen - d.off) text in
    if ltb d.off mishegos_dec_maxlen
    then some (record { buf = take d.off d.buf ++ rest; off = d.off + bytes_written })
    else none

unfoldable pub print_pieces : List (List ℕ) → Disasm → Option Disasm
unfolding dis_vfprintf
print_pieces [] d = some d
print_pieces (text ∷ texts) d = do d' ← dis_vfprintf d text; print_pieces texts d'

abbrev pub starts_with : List ℕ → List ℕ → Bool
starts_with [] text = true
starts_with (c ∷ cs) [] = false
starts_with (c ∷ cs) (b ∷ bs) = (b == c) && starts_with cs bs

-- strstr over a C string.
unfoldable pub strstr : List ℕ → List ℕ → Bool
strstr needle [] = false
strstr needle (c ∷ cs) =
    let later = strstr needle cs in if c == 0 then false else starts_with needle (c ∷ cs) || later

-- "(bad)"
abbrev pub bad : List ℕ
bad = b'(' ∷ b'b' ∷ b'a' ∷ b'd' ∷ b')' ∷ []

-- `disasm` prints some pieces, and gives a number of bytes that is read as a size_t.
module _ (disasm : List ℕ → ℕ → List (List ℕ) × ℕ) where
  unfoldable pub bfd_try_decode : OutputSlot → List ℕ → ℕ → Option OutputSlot
  unfolding print_pieces strstr snprintf
  bfd_try_decode result raw_insn size =
      let (texts, pc) = disasm raw_insn size in
      print_pieces texts (record { buf = replicate mishegos_dec_maxlen 0; off = 0 }) >>= λ d.
      let (nl, rest) = snprintf (drop d.off d.buf) (mishegos_dec_maxlen - d.off) (b'\n' ∷ []) in
      let buf = take d.off d.buf ++ rest in
      let off = d.off + 1 in
      if leb off (length result.result)
      then some (record {
        status = if pc == 0 || strstr bad buf then s_failure else s_success;
        ndecoded = to_u16 pc;
        len = to_u16 off;
        result = take off buf ++ drop off result.result;
      })
      else none
