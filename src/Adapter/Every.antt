-- ===== src/Adapter/Every.antt =====
-- src/worker: six of the adapters in C and C++, each over what it asks of its decoder library.
use mishegos.Base.{ℕ, Bool, true, false, Option, some, List, ltb, ◌==◌}
use mishegos.Base.Int.{ℤ, pos, ltb_ℤ, eq_ℤ}
use mishegos.Slots.{OutputSlot}
use mishegos.Adapter.{
  xed_try_decode, zydis_try_decode, bddisasm_try_decode, fadec_try_decode, llvm_try_decode,
  capstone_try_decode,
}
use mishegos.Adapter.Contract.{Prints, verdict}
use mishegos.Adapter.Contract.Snprintf.{IsInsns, is_some}

-- A decoder library, by the functions and constants of it that its adapter uses.
pub data Library : Type 1 where
  xed :
      (Insn : Type 0)
      → (List ℕ → ℕ → ℕ × Insn)
      → ℕ
      → ℕ
      → (Insn → List ℕ → Bool × List ℕ)
      → (Insn → ℕ)
      → Library
  zydis :
      (Insn : Type 0)
      → (List ℕ → ℕ → ℕ × Insn)
      → (ℕ → Bool)
      → ℕ
      → (Insn → List ℕ → ℕ × List ℕ)
      → (Insn → ℕ)
      → Library
  bddisasm :
      (Insn : Type 0)
      → (List ℕ → ℕ → ℕ × Insn)
      → (ℕ → Bool)
      → (Insn → List ℕ → ℕ × List ℕ)
      → (Insn → ℕ)
      → Library
  fadec :
      (Insn : Type 0)
      → (List ℕ → ℕ → ℤ × Insn)
      → ℤ
      → (Insn → List ℕ → List ℕ)
      → (Insn → ℕ)
      → Library
  llvm : (List ℕ → ℕ → List ℕ → ℕ × List ℕ) → Library
  capstone : (List ℕ → ℕ → Option (List ℕ × List ℕ × ℕ)) → Library

-- The call of its adapter.
unfoldable pub decode_with : Library → OutputSlot → List ℕ → ℕ → Option OutputSlot
decode_with (xed Insn decode none_error short_error format size) =
    xed_try_decode decode none_error short_error format size
decode_with (zydis Insn decode success no_more_data format size) =
    zydis_try_decode decode success no_more_data format size
decode_with (bddisasm Insn decode success to_text size) =
    bddisasm_try_decode decode success to_text size
decode_with (fadec Insn decode err_partial format size) =
    fadec_try_decode decode err_partial format size
decode_with (llvm disasm) = llvm_try_decode disasm
decode_with (capstone disasm) =
    λ result raw length. some (capstone_try_decode disasm result raw length)

-- The status that the adapter of the library has to report, by what the library says: an instruction that
-- it decoded and printed is a success, one that ended too soon is partial where the library can tell,
-- and all else is a failure.
unfoldable pub status_with : Library → OutputSlot → List ℕ → ℕ → ℕ
status_with (xed Insn decode none_error short_error format size) result raw length =
    let (error, insn) = decode raw length in
    verdict (error == none_error) (error == short_error) (format insn result.result).0
status_with (zydis Insn decode success no_more_data format size) result raw length =
    let (status, insn) = decode raw length in
    verdict (success status) (status == no_more_data) (success (format insn result.result).0)
status_with (bddisasm Insn decode success to_text size) result raw length =
    let (status, insn) = decode raw length in
    verdict (success status) false (success (to_text insn result.result).0)
status_with (fadec Insn decode err_partial format size) result raw length =
    let (r, insn) = decode raw length in verdict (ltb_ℤ (pos 0) r) (eq_ℤ r err_partial) true
status_with (llvm disasm) result raw length =
    verdict (ltb 0 (disasm raw length result.result).0) false true
status_with (capstone disasm) result raw length = verdict (is_some (disasm raw length)) false true

-- What the library promises of its texts: they end inside the memory that they are printed to. Those of
-- capstone are in arrays of its own.
abbrev pub Promises : Library → OutputSlot → List ℕ → ℕ → Type 0
Promises (xed Insn decode none_error short_error format size) result raw length =
    (insn : Insn) → Prints (format insn result.result).1
Promises (zydis Insn decode success no_more_data format size) result raw length =
    (insn : Insn) → Prints (format insn result.result).1
Promises (bddisasm Insn decode success to_text size) result raw length =
    (insn : Insn) → Prints (to_text insn result.result).1
Promises (fadec Insn decode err_partial format size) result raw length =
    (insn : Insn) → Prints (format insn result.result)
Promises (llvm disasm) result raw length = Prints (disasm raw length result.result).1
Promises (capstone disasm) result raw length = IsInsns (disasm raw length)
