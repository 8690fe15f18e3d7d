-- ===== src/Mutator/Manual/RoundTrip.antt =====
-- `manual_candidate` on any line, and on the hex digits that mish2jsonl prints.
use mishegos.Base.{
  ℕ, ◌*◌, ◌/◌, ◌%◌, ◌≤◌, ◌<◌, ◌≡◌, refl, ap, ap₂, ◌∙◌, true, false, ◌&&◌, ◌||◌, lt→==_false,
  Option-cases, some, List, [], ◌∷◌, ◌++◌, length, drop, All, arith, ltb, ◌==◌, holds_below,
  holds_below_lem, Bool-cases, inl, inr, All-append, All-drop,
}
use mishegos.Base.Int.{ℤ, pos, negsuc, to_u8}
use mishegos.Bytes.{IsByte}
use mishegos.Slots.{InputSlot, IsSized, mishegos_insn_maxlen}
use mishegos.Gen.{◌>>=◌}
use mishegos.Gen.Returns.{
  Returns, Returns-pure, Returns-bind, Returns-imp, Returns-store, Wrote, Wrote-nil, length-Wrote,
  store_front,
}
use mishegos.Mutator.Manual.{
  hex_byte, hex2bytes, read_line, getline, chop, take_hex, manual_candidate,
}
use mishegos.Mish2jsonl.Hex.{hexbuf, high_digit, low_digit}

length-hex2bytes : (text : List ℕ) → length (hex2bytes text) ≡ length text / 2
unfolding hex2bytes
length-hex2bytes [] = refl
length-hex2bytes (c ∷ []) = refl
length-hex2bytes (c ∷ d ∷ text) = omega (arith, length-hex2bytes text)

to_u8-IsByte : (z : ℤ) → IsByte (to_u8 z)
to_u8-IsByte (pos n) = omega arith
to_u8-IsByte (negsuc n) = omega arith

hex2bytes-IsByte : (text : List ℕ) → All IsByte (hex2bytes text)
unfolding hex2bytes hex_byte
hex2bytes-IsByte [] = tt
hex2bytes-IsByte (c ∷ []) = tt
hex2bytes-IsByte (c ∷ d ∷ text) = (to_u8-IsByte _, hex2bytes-IsByte text)

-- A slot of 15 bytes, whose length stays inside it.
pub record IsSlot (slot : InputSlot) : Type 0 where
  pub size : length slot.raw_insn ≡ mishegos_insn_maxlen
  pub short : slot.len ≤ mishegos_insn_maxlen
  pub bytes : All IsByte slot.raw_insn

-- What a call makes of a slot: bytes that were typed, or none, stand in front of its own.
record Typed (slot slot' : InputSlot) : Type 0 where
  typed : List ℕ
  typed_bytes : All IsByte typed
  wrote : Wrote slot.raw_insn typed slot'.raw_insn
  short : slot'.len ≤ mishegos_insn_maxlen

take_hex-Typed :
    (text : List ℕ) (slot : InputSlot)
    → IsSized slot
    → Returns (λ res. Typed slot res.1) (take_hex text slot)
unfolding take_hex
take_hex-Typed text slot v =
    elim (Bool-cases (length text == 0 || ltb (mishegos_insn_maxlen * 2) (length text))) [
      | inl bad ↦ rw bad (
          Returns-pure _ (record {
            typed = [];
            typed_bytes = tt;
            wrote = Wrote-nil slot.raw_insn;
            short = v.short;
          }))
      | inr good ↦ rw good (
          let short : length text ≤ 30 = ground (arith) in
          let n = length-hex2bytes text in
          Returns-bind
            (Returns-store 0 (hex2bytes text) (Wrote-nil slot.raw_insn) refl
              (omega (arith, v.size)))
            λ raw w. Returns-pure _ (record {
              typed = hex2bytes text;
              typed_bytes = hex2bytes-IsByte text;
              wrote = w;
              short = omega arith;
            }))
    ]

manual_candidate-Typed :
    (slot : InputSlot) → IsSized slot → Returns (λ res. Typed slot res.1) (manual_candidate slot)
unfolding manual_candidate
manual_candidate-Typed slot v = record {
  run = λ stdin. elim (Option-cases (getline stdin)) [
    | inl end ↦ (
      (false, slot),
      stdin,
      rw (end, manual_candidate),
      record { typed = []; typed_bytes = tt; wrote = Wrote-nil slot.raw_insn; short = v.short },
    )
    | inr ((line, rest), more) ↦
        let (r, rest', e, v') = (take_hex-Typed (chop line) slot v).run rest in
        (r, rest', rw (more, manual_candidate) e, v')
  ];
}

pub manual_candidate-IsSized :
    (slot : InputSlot) → IsSized slot → Returns (λ res. IsSized res.1) (manual_candidate slot)
manual_candidate-IsSized slot v =
    Returns-imp (manual_candidate-Typed slot v)
      λ res h. record { size = length-Wrote h.wrote ∙ v.size; short = h.short }

-- Whatever stdin holds, a call writes bytes inside the slot only.
pub manual_candidate-IsSlot :
    (slot : InputSlot) → IsSlot slot → Returns (λ r. IsSlot r.1) (manual_candidate slot)
manual_candidate-IsSlot slot v =
    Returns-imp (manual_candidate-Typed slot (record { size = v.size; short = v.short })) λ res h.
      record {
        size = length-Wrote h.wrote ∙ v.size;
        short = h.short;
        bytes =
            rw h.wrote.contents
              (All-append IsByte h.typed _ h.typed_bytes (All-drop IsByte _ slot.raw_insn v.bytes));
      }

digit_table :
    holds_below 256 (λ b.
      hex_byte (high_digit b) (low_digit b) == b
      && (ltb 0x0a (high_digit b) && ltb 0x0a (low_digit b)))
    ≡ true
unfolding holds_below hex_byte high_digit low_digit
digit_table = refl

digits_of_byte :
    (b : ℕ)
    → IsByte b
    → (hex_byte (high_digit b) (low_digit b) ≡ b) × (0x0a < high_digit b) × (0x0a < low_digit b)
digits_of_byte b h = let t = holds_below_lem 256 _ b digit_table h in ground arith

hex2bytes-hexbuf : (bs : List ℕ) → All IsByte bs → hex2bytes (hexbuf bs) ≡ bs
unfolding hex2bytes hexbuf
hex2bytes-hexbuf [] h = refl
hex2bytes-hexbuf (b ∷ bs) h = ap₂ ◌∷◌ (digits_of_byte b h.0).0 (hex2bytes-hexbuf bs h.1)

length-hexbuf : (bs : List ℕ) → length (hexbuf bs) ≡ 2 * length bs
unfolding hexbuf
length-hexbuf [] = refl
length-hexbuf (b ∷ bs) = omega (arith, length-hexbuf bs)

read_line-hexbuf :
    (bs rest : List ℕ)
    → All IsByte bs
    → read_line (hexbuf bs ++ 0x0a ∷ rest) ≡ (hexbuf bs ++ 0x0a ∷ [], rest)
unfolding read_line hexbuf
read_line-hexbuf [] rest h = refl
read_line-hexbuf (b ∷ bs) rest h =
    let (_, hi, lo) = digits_of_byte b h.0 in
    rw (
      lt→==_false 10 (high_digit b) hi,
      lt→==_false 10 (low_digit b) lo,
      read_line-hexbuf bs rest h.1,
    )

chop-hexbuf : (bs : List ℕ) → All IsByte bs → chop (hexbuf bs ++ 0x0a ∷ []) ≡ hexbuf bs
unfolding chop hexbuf
chop-hexbuf [] h = refl
chop-hexbuf (b ∷ bs) h =
    let (_, hi, lo) = digits_of_byte b h.0 in
    rw (
      lt→==_false 10 (high_digit b) hi,
      lt→==_false 0 (high_digit b) (omega arith),
      lt→==_false 10 (low_digit b) lo,
      lt→==_false 0 (low_digit b) (omega arith),
      chop-hexbuf bs h.1,
    )

take_hex-hexbuf :
    (slot : InputSlot) (bs rest : List ℕ)
    → length slot.raw_insn ≡ mishegos_insn_maxlen
    → All IsByte bs
    → 1 ≤ length bs
    → length bs ≤ mishegos_insn_maxlen
    → take_hex (hexbuf bs) slot rest
      ≡ some (
        (true, record { len = length bs; raw_insn = bs ++ drop (length bs) slot.raw_insn }),
        rest,
      )
unfolding take_hex
take_hex-hexbuf slot bs rest full bytes some_byte short =
    let n = length-hexbuf bs in
    let kept : (length (hexbuf bs) == 0 || ltb 30 (length (hexbuf bs))) ≡ false = ground arith in
    let halved : length (hexbuf bs) / 2 % 256 ≡ length bs = omega arith in
    rw (
      kept,
      hex2bytes-hexbuf bs bytes,
      ◌>>=◌,
      store_front slot.raw_insn bs rest (omega arith),
      halved,
    )

-- A line that mish2jsonl printed as the input of a cohort is read back as that input: its bytes go to
-- the front of the slot, the rest of the slot stays, and so do the lines behind it.
pub manual_candidate-hexbuf :
    (slot : InputSlot) (bs rest : List ℕ)
    → length slot.raw_insn ≡ mishegos_insn_maxlen
    → All IsByte bs
    → 1 ≤ length bs
    → length bs ≤ mishegos_insn_maxlen
    → manual_candidate slot (hexbuf bs ++ 0x0a ∷ rest)
      ≡ some (
        (true, record { len = length bs; raw_insn = bs ++ drop (length bs) slot.raw_insn }),
        rest,
      )
unfolding manual_candidate
manual_candidate-hexbuf slot [] rest full bytes some_byte short = absurd (omega arith)
manual_candidate-hexbuf slot (b ∷ bs) rest full bytes some_byte short =
    let line : getline (hexbuf (b ∷ bs) ++ 0x0a ∷ rest)
        ≡ some (hexbuf (b ∷ bs) ++ 0x0a ∷ [], rest) =
      unfold getline hexbuf in ap some (read_line-hexbuf (b ∷ bs) rest bytes) in
    rw (line, manual_candidate, chop-hexbuf (b ∷ bs) bytes)
      (take_hex-hexbuf slot (b ∷ bs) rest full bytes some_byte short)
