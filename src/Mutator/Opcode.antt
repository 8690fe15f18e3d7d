-- ===== src/Mutator/Opcode.antt =====
-- src/mishegos/mutator.c: the prefix tables and `rand_opcode`.
pub mod Format
use mishegos.Base.{ℕ, ◌%◌, List, [], ◌∷◌, get_or, length, ◌==◌, if◌then◌else◌}
use mishegos.Gen.{Rng, Gen, ◌>>=◌, pure, rand_byte, store}

abbrev pub legacy_prefixes : List ℕ
legacy_prefixes = 0xf0 ∷ 0xf3 ∷ 0xf2 ∷ 0x2e ∷ 0x36 ∷ 0x3e ∷ 0x26 ∷ 0x64 ∷ 0x65 ∷ 0x66 ∷ 0x67 ∷ []

abbrev pub rex_prefixes : List ℕ
rex_prefixes =
    0b01000000 ∷ 0b01000001 ∷ 0b01000010 ∷ 0b01000011 ∷ 0b01000100 ∷ 0b01000101 ∷ 0b01000110
    ∷ 0b01000111 ∷ 0b01001000 ∷ 0b01001001 ∷ 0b01001010 ∷ 0b01001011 ∷ 0b01001100 ∷ 0b01001101
    ∷ 0b01001110 ∷ 0b01001111 ∷ []

-- `table[rand_byte() % sizeof(table)]`; the index is always in range.
unfoldable pub pick : List ℕ → ℕ → ℕ
pick table r = get_or table (r % length table) 0

-- `op` is an array of 5 bytes, of which the first `len` count.
pub record Opcode : Type 0 where
  pub len : ℕ
  pub op : List ℕ

-- `op[i] = rand_byte();`
unfoldable pub store_random : (g : Rng) → List ℕ → ℕ → Gen g.State (List ℕ)
store_random g op i = do b ← rand_byte g; store op i (b ∷ [])

-- The eight cases of the switch in `rand_opcode`.
single_byte : (g : Rng) → Opcode → Gen g.State Opcode
single_byte g opc = do op ← store_random g opc.op 0; pure (record { len = 1; op = op })

two_byte : (g : Rng) → Opcode → Gen g.State Opcode
two_byte g opc = do
  op ← store opc.op 0 (0x0f ∷ [])
  op ← store_random g op 1
  pure (record { len = 2; op = op })

-- The escapes 0x0f 0x38 and 0x0f 0x3a differ in their second byte only.
three_byte : (g : Rng) → ℕ → Opcode → Gen g.State Opcode
three_byte g escape opc = do
  op ← store opc.op 0 (0x0f ∷ [])
  op ← store op 1 (escape ∷ [])
  op ← store_random g op 2
  pure (record { len = 3; op = op })

vex_two_byte : (g : Rng) → Opcode → Gen g.State Opcode
vex_two_byte g opc = do
  op ← store opc.op 0 (0xc5 ∷ [])
  op ← store_random g op 1
  op ← store_random g op 2
  pure (record { len = 3; op = op })

-- The 3-byte VEX prefix 0xc4 and the XOP prefix 0x8f are followed alike.
four_byte : (g : Rng) → ℕ → Opcode → Gen g.State Opcode
four_byte g prefix opc = do
  op ← store opc.op 0 (prefix ∷ [])
  op ← store_random g op 1
  op ← store_random g op 2
  op ← store_random g op 3
  pure (record { len = 4; op = op })

evex : (g : Rng) → Opcode → Gen g.State Opcode
evex g opc = do
  op ← store opc.op 0 (0x62 ∷ [])
  op ← store_random g op 1
  op ← store_random g op 2
  op ← store_random g op 3
  op ← store_random g op 4
  pure (record { len = 5; op = op })

-- The switch on `rand_byte() % 8`.
opcode_case : (g : Rng) → ℕ → Opcode → Gen g.State Opcode
unfolding single_byte two_byte three_byte vex_two_byte four_byte evex
opcode_case g k opc =
    if k == 0
    then single_byte g opc
    else if k == 1
    then two_byte g opc
    else if k == 2
    then three_byte g 0x38 opc
    else if k == 3
    then three_byte g 0x3a opc
    else if k == 4
    then vex_two_byte g opc
    else if k == 5
    then four_byte g 0xc4 opc
    else if k == 6
    then four_byte g 0x8f opc
    else evex g opc

unfoldable pub rand_opcode : (g : Rng) → Opcode → Gen g.State Opcode
unfolding opcode_case
rand_opcode g opc = do r ← rand_byte g; opcode_case g (r % 8) opc
