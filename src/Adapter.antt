-- ===== src/Adapter.antt =====
-- src/worker: the adapters between the fuzzer and the decoder libraries, each by its `try_decode`. The
-- calls into a library are parameters; DLOG prints only in debug builds and is left out.
pub mod Bfd
pub mod Contract
pub mod Every
pub mod Errors
pub mod Ghidra
use mishegos.Base.{
  ℕ, zero, suc, ◌+◌, ◌%◌, ◌^◌, Bool, not, Option, none, some, ◌>>=◌, List, [], ◌∷◌, ◌++◌, length,
  take, drop, ltb, ◌==◌, if◌then◌else◌,
}
use mishegos.Base.Int.{ℤ, pos, ltb_ℤ, eq_ℤ}
use mishegos.Slots.{OutputSlot, mishegos_dec_maxlen, s_success, s_failure, s_partial}

-- The number of characters before the zero byte; `none` if the memory has none.
unfoldable pub strlen : List ℕ → Option ℕ
strlen [] = none
strlen (c ∷ cs) = let rest = strlen cs in if c == 0 then some 0 else (rest >>= λ n. some (n + 1))

abbrev pub to_u16 : ℕ → ℕ
to_u16 n = n % 2 ^ 16

abbrev pub failed : ℕ → OutputSlot → OutputSlot
failed status result = record result { status = status }

-- The end of a `try_decode` that measures the text with strlen.
unfoldable pub succeeded : List ℕ → ℕ → Option OutputSlot
unfolding strlen
succeeded text ndecoded = do
  len ← strlen text
  some (record { status = s_success; ndecoded = to_u16 ndecoded; len = to_u16 len; result = text })

-- xed/xed.c: `xed_decode` gives an error and an instruction; `xed_format_context` prints over `result`.
module _ {Insn : Type 0} (xed_decode : List ℕ → ℕ → ℕ × Insn)
    (xed_error_none xed_error_buffer_too_short : ℕ)
    (xed_format_context : Insn → List ℕ → Bool × List ℕ)
    (xed_decoded_inst_get_length : Insn → ℕ) where
  unfoldable pub xed_try_decode : OutputSlot → List ℕ → ℕ → Option OutputSlot
  unfolding succeeded
  xed_try_decode result raw_insn length =
      let (xed_error, xedd) = xed_decode raw_insn length in
      let (formatted, text) = xed_format_context xedd result.result in
      if not (xed_error == xed_error_none)
      then some
          (failed (if xed_error == xed_error_buffer_too_short then s_partial else s_failure) result)
      else if not formatted
      then some (record result { status = s_failure; result = text })
      else succeeded text (xed_decoded_inst_get_length xedd)

-- zydis/zydis.c: both calls give a status, of which `zyan_success` tells the good ones.
module _ {Insn : Type 0} (decode_full : List ℕ → ℕ → ℕ × Insn) (zyan_success : ℕ → Bool)
    (zydis_status_no_more_data : ℕ) (format_instruction : Insn → List ℕ → ℕ × List ℕ)
    (insn_length : Insn → ℕ) where
  unfoldable pub zydis_try_decode : OutputSlot → List ℕ → ℕ → Option OutputSlot
  unfolding succeeded
  zydis_try_decode result raw_insn length =
      let (zstatus, insn) = decode_full raw_insn length in
      let (zstatus', text) = format_instruction insn result.result in
      if not (zyan_success zstatus)
      then some
          (failed (if zstatus == zydis_status_no_more_data then s_partial else s_failure) result)
      else if not (zyan_success zstatus')
      then some (record result { status = s_failure; result = text })
      else succeeded text (insn_length insn)

-- bddisasm/bddisasm.c.
module _ {Insn : Type 0} (nd_decode_ex : List ℕ → ℕ → ℕ × Insn) (nd_success : ℕ → Bool)
    (nd_to_text : Insn → List ℕ → ℕ × List ℕ) (insn_length : Insn → ℕ) where
  unfoldable pub bddisasm_try_decode : OutputSlot → List ℕ → ℕ → Option OutputSlot
  unfolding succeeded
  bddisasm_try_decode result raw_insn length =
      let (ndstatus, instruction) = nd_decode_ex raw_insn length in
      let (ndstatus', text) = nd_to_text instruction result.result in
      if not (nd_success ndstatus)
      then some (failed s_failure result)
      else if not (nd_success ndstatus')
      then some (record result { status = s_failure; result = text })
      else succeeded text (insn_length instruction)

-- fadec/fadec.c: `fd_decode` gives a positive number or an error.
module _ {Insn : Type 0} (fd_decode : List ℕ → ℕ → ℤ × Insn) (fd_err_partial : ℤ)
    (fd_format : Insn → List ℕ → List ℕ) (fd_size : Insn → ℕ) where
  unfoldable pub fadec_try_decode : OutputSlot → List ℕ → ℕ → Option OutputSlot
  unfolding succeeded
  fadec_try_decode result raw_insn length =
      let (r, inst) = fd_decode raw_insn length in
      if ltb_ℤ (pos 0) r
      then succeeded (fd_format inst result.result) (fd_size inst)
      else some (failed (if eq_ℤ r fd_err_partial then s_partial else s_failure) result)

-- llvm/llvm.c: one call decodes and prints; it gives the number of bytes that it decoded.
module _ (llvm_disasm_instruction : List ℕ → ℕ → List ℕ → ℕ × List ℕ) where
  unfoldable pub llvm_try_decode : OutputSlot → List ℕ → ℕ → Option OutputSlot
  unfolding succeeded
  llvm_try_decode result raw_insn length =
      let (len, text) = llvm_disasm_instruction raw_insn length result.result in
      if ltb 0 len
      then succeeded text len
      else some (record result { status = s_failure; result = text })

-- snprintf over the front of `memory`, of `size` bytes: the text is cut to leave room for its zero, and
-- the result counts the whole text.
unfoldable pub snprintf : List ℕ → ℕ → List ℕ → ℕ × List ℕ
snprintf memory zero text = (length text, memory)
snprintf memory (suc size) text =
    let cut = take size text ++ (0 ∷ []) in (length text, cut ++ drop (length cut) memory)

-- capstone/capstone.c: `cs_disasm` gives at most one instruction, with the texts of its mnemonic and
-- its operands.
unfoldable pub print_insn : OutputSlot → Option (List ℕ × List ℕ × ℕ) → OutputSlot
print_insn result none = failed s_failure result
print_insn result (some (mnemonic, op_str, insn_size)) =
    let line = mnemonic ++ (b' ' ∷ (op_str ++ (b'\n' ∷ []))) in
    let (len, text) = snprintf result.result mishegos_dec_maxlen line in
    record { status = s_success; ndecoded = to_u16 insn_size; len = to_u16 len; result = text }

module _ (cs_disasm : List ℕ → ℕ → Option (List ℕ × List ℕ × ℕ)) where
  unfoldable pub capstone_try_decode : OutputSlot → List ℕ → ℕ → OutputSlot
  capstone_try_decode result raw_insn size = print_insn result (cs_disasm raw_insn size)

-- dynamorio/dynamorio.c: `decode` gives the distance of the next pc, or nothing; it is not told the
-- length of the instruction.
module _ {Insn : Type 0} (instr_disassemble_to_buffer : Insn → List ℕ → ℕ × List ℕ) where
  unfoldable pub print_instr : OutputSlot → Option (ℕ × Insn) → OutputSlot
  print_instr result none = failed s_failure result
  print_instr result (some (next_pc, instr)) =
      let (len, text) = instr_disassemble_to_buffer instr result.result in
      record { status = s_success; ndecoded = to_u16 next_pc; len = to_u16 len; result = text }

  unfoldable pub dynamorio_try_decode :
      (List ℕ → Option (ℕ × Insn)) → OutputSlot → List ℕ → ℕ → OutputSlot
  dynamorio_try_decode decode result raw_insn length = print_instr result (decode raw_insn)
