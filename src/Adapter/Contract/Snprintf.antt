-- ===== src/Adapter/Contract/Snprintf.antt =====
-- The adapters that take the length of a text from the call that prints it.
use mishegos.Base.{
  ℕ, zero, suc, ◌+◌, ◌≤◌, ◌<◌, ◌≡◌, refl, ◌∙◌, inl, inr, Bool, true, false, Option, none, some,
  List, [], ◌∷◌, ◌++◌, length, take, drop, length-append, length-drop, arith,
}
use mishegos.Slots.{OutputSlot}
use mishegos.Adapter.{snprintf, print_insn, capstone_try_decode}
use mishegos.Adapter.Contract.{IsAnswer, IsCleared, HasAnswer, verdict}

length-take_le : (n : ℕ) (xs : List ℕ) → length (take n xs) ≤ n
length-take_le zero xs = omega arith
length-take_le (suc n) [] = omega arith
length-take_le (suc n) (x ∷ xs) = omega (arith, length-take_le n xs)

-- The memory keeps its size.
pub length-snprintf :
    (memory : List ℕ) (size : ℕ) (text : List ℕ)
    → length memory ≡ suc size
    → length (snprintf memory (suc size) text).1 ≡ suc size
unfolding snprintf
length-snprintf memory size text full =
    let cut = take size text ++ 0 ∷ [] in
    let n = length-append (take size text) (0 ∷ []) in
    let short = length-take_le size text in
    length-append cut (drop (length cut) memory) ∙ omega (arith, length-drop (length cut) memory)

-- What `cs_disasm` promises of the texts of an instruction: they end inside arrays of 32 and 160 bytes.
pub record IsInsn (insn : List ℕ × List ℕ × ℕ) : Type 0 where
  pub mnemonic_short : length insn.0 < 32
  pub op_str_short : length insn.1 < 160

abbrev pub IsInsns : Option (List ℕ × List ℕ × ℕ) → Type 0
IsInsns none = Unit
IsInsns (some insn) = IsInsn insn

print_insn-IsAnswer :
    (result : OutputSlot) (insn : Option (List ℕ × List ℕ × ℕ))
    → IsInsns insn
    → IsCleared result
    → IsAnswer (print_insn result insn)
unfolding print_insn
print_insn-IsAnswer result none promised h = record {
  size = h.size;
  short = omega (arith, h.len_zero);
  ndecoded_lt = omega (arith, h.ndecoded_zero);
  outcome = inr (inl refl, h.len_zero);
}
print_insn-IsAnswer result (some (mnemonic, op_str, insn_size)) promised h =
    let line = mnemonic ++ (b' ' ∷ (op_str ++ (b'\n' ∷ []))) in
    let total : length line ≡ length mnemonic + length op_str + 2 =
      length-append mnemonic (b' ' ∷ (op_str ++ (b'\n' ∷ [])))
      ∙ omega (arith, length-append op_str (b'\n' ∷ [])) in
    record {
      size = length-snprintf result.result 247 line h.size;
      short =
          unfold snprintf in omega (arith, total, promised.mnemonic_short, promised.op_str_short);
      ndecoded_lt = omega arith;
      outcome = inl refl;
    }

abbrev pub is_some : Option (List ℕ × List ℕ × ℕ) → Bool
is_some none = false
is_some (some insn) = true

print_insn-status :
    (result : OutputSlot) (o : Option (List ℕ × List ℕ × ℕ))
    → (print_insn result o).status ≡ verdict (is_some o) false true
unfolding print_insn
print_insn-status result none = refl
print_insn-status result (some insn) = refl

-- On a cleared slot the capstone adapter leaves a slot in range, with a text and a success if there is an
-- instruction: its texts end inside arrays of 32 and 160 bytes, as in capstone's cs_insn, so that the
-- line that snprintf counts is not cut.
pub capstone_try_decode-HasAnswer :
    (cs_disasm : List ℕ → ℕ → Option (List ℕ × List ℕ × ℕ)) (result : OutputSlot) (raw : List ℕ)
    (size : ℕ)
    → IsInsns (cs_disasm raw size)
    → IsCleared result
    → HasAnswer
        (verdict (is_some (cs_disasm raw size)) false true)
        (some (capstone_try_decode cs_disasm result raw size))
unfolding capstone_try_decode HasAnswer
capstone_try_decode-HasAnswer cs_disasm result raw size promised h =
    let o = cs_disasm raw size in
    (print_insn result o, refl, print_insn-IsAnswer result o promised h, print_insn-status result o)
