-- ===== src/Mutator/Opcode/Format.antt =====
-- The formats of an opcode, and what `rand_opcode` makes of an uninitialised one.
use mishegos.Base.{
  ℕ, ◌%◌, ◌≤◌, ◌<◌, ◌≡◌, refl, ap, ◌∙◌, take, ◌⊎◌, inl, inr, Bool, true, false, List, [], ◌∷◌, ◌++◌,
  length, Elem, get_or-Elem, arith, if◌then◌else◌, All,
}
use mishegos.Bytes.{IsByte}
use mishegos.Gen.{Rng, Gen, pure, store, load}
use mishegos.Gen.Returns.{
  Returns, Returns-pure, Returns-imp, Returns-bind, Returns-rand_byte, Returns-store, Wrote,
  Wrote-nil, Returns-load, length-Wrote, take-Wrote,
}
use mishegos.Mutator.Opcode.{
  Opcode, pick, store_random, rand_opcode, single_byte, two_byte, three_byte, vex_two_byte,
  four_byte, evex, opcode_case,
}

-- The shapes of opcodes, with 0xc5 before the short VEX prefix and 0xc4 before the long one.
pub data IsOpcode : List ℕ → Type 0 where
  raw : {a : ℕ} → IsByte a → IsOpcode (a ∷ [])
  escaped : {a : ℕ} → IsByte a → IsOpcode (0x0f ∷ a ∷ [])
  escaped_twice : {e a : ℕ} → (e ≡ 0x38) ⊎ (e ≡ 0x3a) → IsByte a → IsOpcode (0x0f ∷ e ∷ a ∷ [])
  vex_short : {a b : ℕ} → IsByte a → IsByte b → IsOpcode (0xc5 ∷ a ∷ b ∷ [])
  vex_or_xop :
      {p a b c : ℕ}
      → (p ≡ 0xc4) ⊎ (p ≡ 0x8f)
      → IsByte a
      → IsByte b
      → IsByte c
      → IsOpcode (p ∷ a ∷ b ∷ c ∷ [])
  evex_long :
      {a b c d : ℕ}
      → IsByte a
      → IsByte b
      → IsByte c
      → IsByte d
      → IsOpcode (0x62 ∷ a ∷ b ∷ c ∷ d ∷ [])

-- An opcode has 1 to 5 bytes.
pub length-IsOpcode : {w : List ℕ} → IsOpcode w → (1 ≤ length w) × (length w ≤ 5)
length-IsOpcode (raw _) = omega arith
length-IsOpcode (escaped _) = omega arith
length-IsOpcode (escaped_twice _ _) = omega arith
length-IsOpcode (vex_short _ _) = omega arith
length-IsOpcode (vex_or_xop _ _ _ _) = omega arith
length-IsOpcode (evex_long _ _ _ _) = omega arith

pub IsOpcode-IsByte : {w : List ℕ} → IsOpcode w → All IsByte w
IsOpcode-IsByte (raw a) = omega arith
IsOpcode-IsByte (escaped a) = omega arith
IsOpcode-IsByte (escaped_twice e a) = omega arith
IsOpcode-IsByte (vex_short a b) = omega arith
IsOpcode-IsByte (vex_or_xop p a b c) = omega arith
IsOpcode-IsByte (evex_long a b c d) = omega arith

pub pick-Elem : (table : List ℕ) (r : ℕ) → 0 < length table → Elem (pick table r) table
unfolding pick
pick-Elem table r h = get_or-Elem table (r % length table) 0 (grind arith)

pub Returns-if :
    {S A : Type 0} {P : A → Type 0} {m n : Gen S A} (b : Bool)
    → Returns P m
    → Returns P n
    → Returns P (if b then m else n)
Returns-if true hm hn = hm
Returns-if false hm hn = hn

pub Returns-store_random :
    (g : Rng) {old w buf : List ℕ} (i : ℕ)
    → Wrote old w buf
    → i ≡ length w
    → length w < length old
    → Returns (λ buf'. (b : ℕ) × IsByte b × Wrote old (w ++ b ∷ []) buf') (store_random g buf i)
unfolding store_random
Returns-store_random g i h e room =
    Returns-bind (Returns-rand_byte g)
      λ b lt. Returns-imp (Returns-store i (b ∷ []) h e (omega arith)) λ buf' w'. (b, lt, w')

-- The front of the array is an opcode of the stated length, and the rest is untouched.
pub record Made (old : List ℕ) (o : Opcode) : Type 0 where
  pub bytes : List ℕ
  pub wrote : Wrote old bytes o.op
  pub counted : o.len ≡ length bytes
  pub format : IsOpcode bytes

module _ (g : Rng) (opc : Opcode) (five : length opc.op ≡ 5) where
  start : Wrote opc.op [] opc.op
  start = Wrote-nil opc.op

  random :
      {w buf : List ℕ} (i : ℕ)
      → Wrote opc.op w buf
      → i ≡ length w
      → length w < 5
      → Returns
          (λ buf'. (b : ℕ) × IsByte b × Wrote opc.op (w ++ b ∷ []) buf')
          (store_random g buf i)
  random i w e room = Returns-store_random g i w e (omega arith)

  leading : (b : ℕ) → Returns {S = g.State} (Wrote opc.op (b ∷ [])) (store opc.op 0 (b ∷ []))
  leading b = Returns-store 0 (b ∷ []) start refl (omega arith)

  made :
      {w op : List ℕ}
      → Wrote opc.op w op
      → IsOpcode w
      → Returns {S = g.State} (Made opc.op) (pure (record { len = length w; op = op }))
  made w f = Returns-pure _ (record { bytes = _; wrote = w; counted = refl; format = f })

  single_byte-Made : Returns (Made opc.op) (single_byte g opc)
  unfolding single_byte
  single_byte-Made =
      Returns-bind (random 0 start refl (omega arith)) λ _ (a, ha, w). made w (raw ha)

  two_byte-Made : Returns (Made opc.op) (two_byte g opc)
  unfolding two_byte
  two_byte-Made =
      Returns-bind (leading 0x0f)
        λ _ w. Returns-bind (random 1 w refl (omega arith)) λ _ (a, ha, w). made w (escaped ha)

  three_byte-Made : (e : ℕ) → (e ≡ 0x38) ⊎ (e ≡ 0x3a) → Returns (Made opc.op) (three_byte g e opc)
  unfolding three_byte
  three_byte-Made e he = Returns-bind (leading 0x0f) λ _ w.
      Returns-bind (Returns-store 1 (e ∷ []) w refl (omega arith)) λ _ w.
        Returns-bind (random 2 w refl (omega arith)) λ _ (a, ha, w). made w (escaped_twice he ha)

  vex_two_byte-Made : Returns (Made opc.op) (vex_two_byte g opc)
  unfolding vex_two_byte
  vex_two_byte-Made = Returns-bind (leading 0xc5) λ _ w.
      Returns-bind (random 1 w refl (omega arith)) λ _ (a, ha, w).
        Returns-bind (random 2 w refl (omega arith)) λ _ (b, hb, w). made w (vex_short ha hb)

  four_byte-Made : (p : ℕ) → (p ≡ 0xc4) ⊎ (p ≡ 0x8f) → Returns (Made opc.op) (four_byte g p opc)
  unfolding four_byte
  four_byte-Made p hp = Returns-bind (leading p) λ _ w.
      Returns-bind (random 1 w refl (omega arith)) λ _ (a, ha, w).
        Returns-bind (random 2 w refl (omega arith)) λ _ (b, hb, w).
          Returns-bind (random 3 w refl (omega arith))
            λ _ (c, hc, w). made w (vex_or_xop hp ha hb hc)

  evex-Made : Returns (Made opc.op) (evex g opc)
  unfolding evex
  evex-Made = Returns-bind (leading 0x62) λ _ w.
      Returns-bind (random 1 w refl (omega arith)) λ _ (a, ha, w).
        Returns-bind (random 2 w refl (omega arith)) λ _ (b, hb, w).
          Returns-bind (random 3 w refl (omega arith)) λ _ (c, hc, w).
            Returns-bind (random 4 w refl (omega arith))
              λ _ (d, hd, w). made w (evex_long ha hb hc hd)

  opcode_case-Made : (k : ℕ) → Returns (Made opc.op) (opcode_case g k opc)
  unfolding opcode_case
  opcode_case-Made k = Returns-if _ single_byte-Made (
      Returns-if _ two_byte-Made (
        Returns-if _ (three_byte-Made 0x38 (inl refl)) (
          Returns-if _ (three_byte-Made 0x3a (inr refl)) (
            Returns-if _ vex_two_byte-Made (
              Returns-if _ (four_byte-Made 0xc4 (inl refl))
                (Returns-if _ (four_byte-Made 0x8f (inr refl)) evex-Made))))))

  -- From every generator state and every contents of the 5-byte array, `rand_opcode` writes inside
  -- the array only, and leaves at its front `len` bytes of one of these formats, in which `b` is any byte:
  -- b; 0f b; 0f 38 b or 0f 3a b; c5 b b; c4 b b b or 8f b b b; 62 b b b b.
  pub rand_opcode-Made : Returns (Made opc.op) (rand_opcode g opc)
  unfolding rand_opcode
  rand_opcode-Made = Returns-bind (Returns-rand_byte g) λ r _. opcode_case-Made (r % 8)

-- The first `len` bytes of the array are the opcode.
pub load-Made :
    {S : Type 0} {old : List ℕ} (o : Opcode) (m : Made old o)
    → Returns {S = S} IsOpcode (load o.op 0 o.len)
load-Made o m =
    Returns-imp
      (Returns-load o.op 0 o.len (omega (arith, m.counted, length-Wrote m.wrote, m.wrote.fits)))
      λ bytes e. rw (e ∙ ap (λ (n : ℕ). take n o.op) m.counted ∙ take-Wrote m.wrote) m.format
