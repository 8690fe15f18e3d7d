-- ===== src/Adapter/Contract.antt =====
-- What the fuzzer relies on: an adapter's `try_decode` leaves an output slot that `process` can write.
pub mod Snprintf
use mishegos.Base.{
  ℕ, ◌+◌, ◌^◌, ◌<◌, ◌≡◌, refl, ◌⊎◌, inl, inr, Bool, true, false, Option, some, List, [], ◌∷◌,
  length, ◌==◌, if◌then◌else◌, Elem, arith, ltb, Bool-cases,
}
use mishegos.Base.Int.{ℤ, pos, ltb_ℤ, eq_ℤ}
use mishegos.Slots.{OutputSlot, mishegos_dec_maxlen, s_success, s_failure, s_partial}
use mishegos.Adapter.{
  strlen, to_u16, failed, succeeded, xed_try_decode, zydis_try_decode, fadec_try_decode,
  bddisasm_try_decode, llvm_try_decode,
}

strlen-lt : (text : List ℕ) → Elem 0 text → (n : ℕ) × (strlen text ≡ some n) × (n < length text)
unfolding strlen
strlen-lt [] h = absurd h
strlen-lt (c ∷ cs) h = elim (Bool-cases (c == 0)) [
  | inl end ↦ (0, rw end refl, omega arith)
  | inr more ↦ elim h [
    | inl e ↦ absurd (ground arith)
    | inr later ↦ let (n, e, lt) = strlen-lt cs later in (n + 1, rw (more, e) refl, omega arith)
  ]
]

-- A slot that `process` can write: its text stays inside `result`, and it has one only on success.
pub record IsAnswer (o : OutputSlot) : Type 0 where
  pub size : length o.result ≡ mishegos_dec_maxlen
  pub short : o.len < mishegos_dec_maxlen
  pub ndecoded_lt : o.ndecoded < 2 ^ 16
  pub outcome :
      (o.status ≡ s_success) ⊎ (((o.status ≡ s_failure) ⊎ (o.status ≡ s_partial)) × (o.len ≡ 0))

-- The slot that a worker clears before the call.
pub record IsCleared (o : OutputSlot) : Type 0 where
  pub size : length o.result ≡ mishegos_dec_maxlen
  pub len_zero : o.len ≡ 0
  pub ndecoded_zero : o.ndecoded ≡ 0

-- A formatter keeps the size of the buffer and ends its text with a zero byte inside it.
unfoldable pub Prints : List ℕ → Type 0
Prints text = (length text ≡ mishegos_dec_maxlen) × Elem 0 text

-- The status that stands for what a library made of an instruction: whether it decoded it, whether the
-- input ended too soon, and whether the text was printed.
abbrev pub verdict : Bool → Bool → Bool → ℕ
verdict decoded short printed =
    if decoded
    then (if printed then s_success else s_failure)
    else (if short then s_partial else s_failure)

-- There is an answer, and it has the status.
unfoldable pub HasAnswer : ℕ → Option OutputSlot → Type 0
HasAnswer status o = (slot : OutputSlot) × (o ≡ some slot) × IsAnswer slot × (slot.status ≡ status)

succeeded-HasAnswer : (text : List ℕ) (n : ℕ) → Prints text → HasAnswer s_success (succeeded text n)
unfolding succeeded HasAnswer Prints
succeeded-HasAnswer text n h =
    let (len, e, lt) = strlen-lt text h.1 in
    (
      record { status = s_success; ndecoded = to_u16 n; len = to_u16 len; result = text },
      rw e refl,
      record {
        size = h.0;
        short = omega (arith, h.0);
        ndecoded_lt = omega arith;
        outcome = inl refl;
      },
      refl,
    )

refused :
    (status : ℕ) (o : OutputSlot) (text : List ℕ)
    → (status ≡ s_failure) ⊎ (status ≡ s_partial)
    → IsCleared o
    → length text ≡ mishegos_dec_maxlen
    → HasAnswer status (some (record o { status = status; result = text }))
unfolding HasAnswer
refused status o text e h n = (
  _,
  refl,
  record {
    size = n;
    short = omega (arith, h.len_zero);
    ndecoded_lt = omega (arith, h.ndecoded_zero);
    outcome = inr (e, h.len_zero);
  },
  refl,
)

refused-if :
    (b : Bool) (o : OutputSlot)
    → IsCleared o
    → HasAnswer
        (if b then s_partial else s_failure)
        (some (failed (if b then s_partial else s_failure) o))
refused-if true o h = refused s_partial o o.result (inr refl) h h.size
refused-if false o h = refused s_failure o o.result (inl refl) h h.size

-- On a cleared slot the XED adapter leaves a slot in range, with a text only on success, if the
-- formatter ends its text inside the buffer that it is given.
pub xed_try_decode-HasAnswer :
    {Insn : Type 0} (xed_decode : List ℕ → ℕ → ℕ × Insn) (none_error short_error : ℕ)
    (format : Insn → List ℕ → Bool × List ℕ) (get_length : Insn → ℕ) (result : OutputSlot)
    (raw : List ℕ) (length : ℕ)
    → ((insn : Insn) → Prints (format insn result.result).1)
    → IsCleared result
    → HasAnswer
        (verdict
          ((xed_decode raw length).0 == none_error)
          ((xed_decode raw length).0 == short_error)
          (format (xed_decode raw length).1 result.result).0)
        (xed_try_decode xed_decode none_error short_error format get_length result raw length)
unfolding xed_try_decode Prints
xed_try_decode-HasAnswer xed_decode none_error short_error format get_length result raw length
      prints h =
    let insn = (xed_decode raw length).1 in
    elim (Bool-cases ((xed_decode raw length).0 == none_error)) [
      | inr bad ↦ rw bad (refused-if _ result h)
      | inl good ↦ elim (Bool-cases (format insn result.result).0) [
        | inl formatted ↦
            rw (good, formatted) (succeeded-HasAnswer _ (get_length insn) (prints insn))
        | inr refuses ↦ rw (good, refuses) (refused s_failure result _ (inl refl) h (prints insn).0)
      ]
    ]

-- On a cleared slot the Zydis adapter, whose two calls tell a failure by their status, leaves a slot
-- in range, with a text only on success, if the formatter ends its text inside the buffer.
pub zydis_try_decode-HasAnswer :
    {Insn : Type 0} (decode_full : List ℕ → ℕ → ℕ × Insn) (success : ℕ → Bool) (no_more_data : ℕ)
    (format : Insn → List ℕ → ℕ × List ℕ) (insn_length : Insn → ℕ) (result : OutputSlot)
    (raw : List ℕ) (length : ℕ)
    → ((insn : Insn) → Prints (format insn result.result).1)
    → IsCleared result
    → HasAnswer
        (verdict
          (success (decode_full raw length).0)
          ((decode_full raw length).0 == no_more_data)
          (success (format (decode_full raw length).1 result.result).0))
        (zydis_try_decode decode_full success no_more_data format insn_length result raw length)
unfolding zydis_try_decode Prints
zydis_try_decode-HasAnswer decode_full success no_more_data format insn_length result raw length
      prints h =
    let insn = (decode_full raw length).1 in
    elim (Bool-cases (success (decode_full raw length).0)) [
      | inr bad ↦ rw bad (refused-if _ result h)
      | inl good ↦ elim (Bool-cases (success (format insn result.result).0)) [
        | inl formatted ↦
            rw (good, formatted) (succeeded-HasAnswer _ (insn_length insn) (prints insn))
        | inr refuses ↦ rw (good, refuses) (refused s_failure result _ (inl refl) h (prints insn).0)
      ]
    ]

-- On a cleared slot the fadec adapter, whose formatter cannot fail, leaves a slot in range, with a
-- text only on success, if the formatter ends its text inside the buffer that it is given.
pub fadec_try_decode-HasAnswer :
    {Insn : Type 0} (fd_decode : List ℕ → ℕ → ℤ × Insn) (err_partial : ℤ)
    (format : Insn → List ℕ → List ℕ) (size : Insn → ℕ) (result : OutputSlot) (raw : List ℕ)
    (length : ℕ)
    → ((insn : Insn) → Prints (format insn result.result))
    → IsCleared result
    → HasAnswer
        (verdict
          (ltb_ℤ (pos 0) (fd_decode raw length).0)
          (eq_ℤ (fd_decode raw length).0 err_partial)
          true)
        (fadec_try_decode fd_decode err_partial format size result raw length)
unfolding fadec_try_decode Prints
fadec_try_decode-HasAnswer fd_decode err_partial format size result raw length prints h =
    let insn = (fd_decode raw length).1 in
    elim (Bool-cases (ltb_ℤ (pos 0) (fd_decode raw length).0)) [
      | inl good ↦ rw good (succeeded-HasAnswer _ (size insn) (prints insn))
      | inr bad ↦ rw bad (refused-if _ result h)
    ]

-- On a cleared slot the bddisasm adapter, which has no partial status, leaves a slot in range, with a
-- text only on success, if the formatter ends its text inside the buffer.
pub bddisasm_try_decode-HasAnswer :
    {Insn : Type 0} (decode : List ℕ → ℕ → ℕ × Insn) (success : ℕ → Bool)
    (to_text : Insn → List ℕ → ℕ × List ℕ) (insn_length : Insn → ℕ) (result : OutputSlot)
    (raw : List ℕ) (length : ℕ)
    → ((insn : Insn) → Prints (to_text insn result.result).1)
    → IsCleared result
    → HasAnswer
        (verdict
          (success (decode raw length).0)
          false
          (success (to_text (decode raw length).1 result.result).0))
        (bddisasm_try_decode decode success to_text insn_length result raw length)
unfolding bddisasm_try_decode Prints
bddisasm_try_decode-HasAnswer decode success to_text insn_length result raw length prints h =
    let insn = (decode raw length).1 in
    elim (Bool-cases (success (decode raw length).0)) [
      | inr bad ↦ rw bad (refused s_failure result result.result (inl refl) h h.size)
      | inl good ↦ elim (Bool-cases (success (to_text insn result.result).0)) [
        | inl formatted ↦
            rw (good, formatted) (succeeded-HasAnswer _ (insn_length insn) (prints insn))
        | inr refuses ↦ rw (good, refuses) (refused s_failure result _ (inl refl) h (prints insn).0)
      ]
    ]

-- On a cleared slot the LLVM adapter, whose one call decodes and prints, leaves a slot in range, with a
-- text only on success, if that call ends its text inside the buffer.
pub llvm_try_decode-HasAnswer :
    (disasm : List ℕ → ℕ → List ℕ → ℕ × List ℕ) (result : OutputSlot) (raw : List ℕ) (length : ℕ)
    → Prints (disasm raw length result.result).1
    → IsCleared result
    → HasAnswer
        (verdict (ltb 0 (disasm raw length result.result).0) false true)
        (llvm_try_decode disasm result raw length)
unfolding llvm_try_decode Prints
llvm_try_decode-HasAnswer disasm result raw length prints h =
    elim (Bool-cases (ltb 0 (disasm raw length result.result).0)) [
      | inl good ↦ rw good (succeeded-HasAnswer _ _ prints)
      | inr bad ↦ rw bad (refused s_failure result _ (inl refl) h prints.0)
    ]
