-- ===== src/Mutator/Manual.antt =====
-- src/mishegos/mutator.c: `manual_candidate` reads candidates from stdin, one line of hex digits each.
pub mod RoundTrip
pub mod Spending
use mishegos.Base.{
  ℕ, ◌+◌, ◌-◌, ◌*◌, ◌/◌, ◌%◌, Bool, true, false, ◌||◌, Option, none, some, List, [], ◌∷◌, length,
  ltb, ◌==◌, if◌then◌else◌,
}
use mishegos.Base.Int.{ℤ, pos, negsuc, ◌+ℤ◌, rem_ℤ, to_u8}
use mishegos.Slots.{InputSlot, mishegos_insn_maxlen}
use mishegos.Gen.{Gen, ◌>>=◌, pure, store}

-- `char` is signed on the platforms that mishegos runs on.
abbrev char_value : ℕ → ℤ
char_value c = if ltb c 128 then pos c else negsuc (255 - c)

-- `(c % 32 + 9) % 25`
abbrev nibble : ℕ → ℤ
nibble c = rem_ℤ (rem_ℤ (char_value c) 32 +ℤ pos 9) 25

abbrev times_16 : ℤ → ℤ
times_16 (pos n) = pos (n * 16)
times_16 (negsuc n) = negsuc (n * 16 + 15)

unfoldable pub hex_byte : ℕ → ℕ → ℕ
hex_byte hi lo = to_u8 (times_16 (nibble hi) +ℤ nibble lo)

-- Each pair of characters gives a byte; a last character without a partner is passed over.
unfoldable pub hex2bytes : List ℕ → List ℕ
unfolding hex_byte
hex2bytes [] = []
hex2bytes (hi ∷ []) = []
hex2bytes (hi ∷ lo ∷ rest) = hex_byte hi lo ∷ hex2bytes rest

-- The line that getline reads, with its newline if there is one, and what is left of the input.
unfoldable pub read_line : List ℕ → List ℕ × List ℕ
read_line [] = ([], [])
read_line (c ∷ cs) =
    let (line, rest) = read_line cs in if c == 0x0a then (c ∷ [], cs) else (c ∷ line, rest)

-- getline fails at the end of the input.
unfoldable pub getline : List ℕ → Option (List ℕ × List ℕ)
unfolding read_line
getline [] = none
getline (c ∷ cs) = some (read_line (c ∷ cs))

-- The C string that is left when the newline is overwritten: it ends at a newline or a zero byte.
unfoldable pub chop : List ℕ → List ℕ
chop [] = []
chop (c ∷ cs) = let rest = c ∷ chop cs in if c == 0x0a || c == 0 then [] else rest

-- The line is refused if it is empty or too long.
unfoldable pub take_hex : List ℕ → InputSlot → Gen (List ℕ) (Bool × InputSlot)
unfolding hex2bytes
take_hex text slot =
    if length text == 0 || ltb (mishegos_insn_maxlen * 2) (length text)
    then pure (false, slot)
    else (do
      raw ← store slot.raw_insn 0 (hex2bytes text)
      pure (true, record { len = length text / 2 % 256; raw_insn = raw }))

-- The state is what stdin still holds.
unfoldable pub manual_candidate : InputSlot → Gen (List ℕ) (Bool × InputSlot)
unfolding getline chop take_hex
manual_candidate slot stdin = elim (getline stdin) [
  | none ↦ some ((false, slot), stdin)
  | some (line, rest) ↦ take_hex (chop line) slot rest
]
