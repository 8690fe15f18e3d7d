-- ===== src/Mutator/Candidate/Shape.antt =====
-- The parts of a sliding candidate, and that `build_sliding_candidate` fits its 28 bytes.
use mishegos.Base.{
  ℕ, zero, suc, ◌+◌, ◌%◌, ◌^◌, ◌≤◌, ◌<◌, ◌≡◌, refl, inl, List, [], ◌∷◌, ◌++◌, length, Elem, arith,
  All, length-append, append-nil,
}
use mishegos.Bytes.{IsByte}
use mishegos.Gen.{Rng}
use mishegos.Gen.Returns.{
  Returns, Returns-pure, Returns-imp, Returns-bind, Returns-rand_byte, Returns-rand_long,
  Returns-store, Returns-load_le, Wrote, Wrote-nil,
}
use mishegos.Mutator.Opcode.{Opcode, rex_prefixes}
use mishegos.Mutator.Prefix.{
  IsLegacy, fill_legacy-Wrote, AtMostOne, nothing, just_one, length-AtMostOne, All-Elem,
}
use mishegos.Mutator.Opcode.Format.{
  IsOpcode, pick-Elem, rand_opcode-Made, load-Made, Returns-if, length-IsOpcode,
}
use mishegos.Mutator.Candidate.{
  InsnCandidate, insn_size, zeroed, append, rex_case, append_field, maybe_field,
  build_sliding_candidate, modrm_onwards,
}

-- A displacement or an immediate: none, or 1, 2, 4 or 8 bytes.
abbrev pub IsField : List ℕ → Type 0
IsField d = Elem (length d) (0 ∷ 1 ∷ 2 ∷ 4 ∷ 8 ∷ [])

length-IsField : (d : List ℕ) → IsField d → length d ≤ 8
length-IsField d h = ground arith

pub record SlidingParts (w : List ℕ) : Type 0 where
  pub prefixes : List ℕ
  pub rex : List ℕ
  pub opcode : List ℕ
  pub modrm : ℕ
  pub sib : ℕ
  pub disp : List ℕ
  pub imm : List ℕ
  pub four : length prefixes ≡ 4
  pub all_legacy : All IsLegacy prefixes
  pub is_rex : AtMostOne IsByte rex
  pub is_opcode : IsOpcode opcode
  pub modrm_byte : IsByte modrm
  pub sib_byte : IsByte sib
  pub is_disp : IsField disp
  pub is_imm : IsField imm
  pub whole : w ≡ prefixes ++ rex ++ opcode ++ (modrm ∷ []) ++ (sib ∷ []) ++ disp ++ imm

field_width : (k : ℕ) → k < 4 → Elem (2 ^ k) (0 ∷ 1 ∷ 2 ∷ 4 ∷ 8 ∷ []) × (2 ^ k ≤ 8)
field_width zero h = omega arith
field_width (suc zero) h = omega arith
field_width (suc (suc zero)) h = omega arith
field_width (suc (suc (suc zero))) h = omega arith
field_width (suc (suc (suc (suc k)))) h = absurd (omega arith)

-- The candidate holds `w`, and zeros behind it.
pub record Holds (w : List ℕ) (c : InsnCandidate) : Type 0 where
  pub wrote : Wrote zeroed.insn w c.insn
  pub counted : c.len ≡ length w
  pub unslid : c.off ≡ 0

module _ (g : Rng) {w : List ℕ} {c : InsnCandidate} (h : Holds w c) where
  append-Holds :
      (src : List ℕ)
      → length w + length src ≤ insn_size
      → Returns (Holds (w ++ src)) (append g c src)
  unfolding append
  append-Holds src room = Returns-bind (Returns-store c.len src h.wrote h.counted room) λ insn w'.
      Returns-pure _ (record {
        wrote = w';
        counted = omega (arith, length-append w src, h.counted);
        unslid = h.unslid;
      })

  rex_case-Holds :
      (k : ℕ)
      → length w < insn_size
      → Returns (λ c'. (r : List ℕ) × AtMostOne IsByte r × Holds (w ++ r) c') (rex_case g k c)
  unfolding rex_case
  rex_case-Holds k room =
      Returns-if _
        (Returns-bind (Returns-rand_byte g) λ r _.
          with_rex
            (All-Elem IsByte rex_prefixes (omega arith) (pick-Elem rex_prefixes r (omega arith))))
        (Returns-if _ (Returns-bind (Returns-rand_byte g) λ r lt. with_rex lt)
          (Returns-pure _ ([], nothing, rw append-nil h)))
    where
      with_rex :
          {b : ℕ}
          → IsByte b
          → Returns
              (λ c'. (r : List ℕ) × AtMostOne IsByte r × Holds (w ++ r) c')
              (append g c (b ∷ []))
      with_rex {b} lt =
          Returns-imp (append-Holds (b ∷ []) (omega arith)) λ _ h'. (b ∷ [], just_one lt, h')

  append_field-Holds :
      length w + 8 ≤ insn_size
      → Returns (λ c'. (d : List ℕ) × IsField d × Holds (w ++ d) c') (append_field g c)
  unfolding append_field
  append_field-Holds room = Returns-bind (Returns-rand_byte g) λ r _.
      let k = r % 4 in
      let (widths, small) = field_width k (omega arith) in
      Returns-bind (Returns-rand_long g) λ v _.
        Returns-bind (Returns-load_le 8 v (2 ^ k) small) λ bytes (width, _).
          Returns-imp (append-Holds bytes (omega arith)) λ _ h'. (bytes, rw width widths, h')

  maybe_field-Holds :
      length w + 8 ≤ insn_size
      → Returns (λ c'. (d : List ℕ) × IsField d × Holds (w ++ d) c') (maybe_field g c)
  unfolding maybe_field
  maybe_field-Holds room =
      Returns-bind (Returns-rand_byte g) λ r _.
        Returns-if _ (append_field-Holds room) (Returns-pure _ ([], inl refl, rw append-nil h))

-- The bytes from ModR/M on, behind at most 10 others.
modrm_onwards-Holds :
    (g : Rng) {w : List ℕ} {c : InsnCandidate}
    → Holds w c
    → length w ≤ 10
    → Returns
        (λ c'.
          (m s : ℕ) × (d i : List ℕ) × IsByte m
          × IsByte s
          × IsField d
          × IsField i
          × Holds (w ++ (m ∷ []) ++ (s ∷ []) ++ d ++ i) c')
        (modrm_onwards g c)
unfolding modrm_onwards
modrm_onwards-Holds g {w} h short = Returns-bind (Returns-rand_byte g) λ m hm.
    let n = length-append w (m ∷ []) in
    Returns-bind (append-Holds g h (m ∷ []) (omega arith)) λ _ h.
      Returns-bind (Returns-rand_byte g) λ s hs.
        let n' = length-append (w ++ (m ∷ [])) (s ∷ []) in
        Returns-bind (append-Holds g h (s ∷ []) (omega arith)) λ _ h.
          Returns-bind (maybe_field-Holds g h (omega arith)) λ _ (d, hd, h).
            let n'' = length-append (w ++ (m ∷ []) ++ (s ∷ [])) d in
            Returns-imp (maybe_field-Holds g h (omega (arith, length-IsField d hd)))
              λ _ (i, hi, h). (m, s, d, i, hm, hs, hd, hi, h)

-- From every generator state the generated candidate starts at offset 0 and is made of 4 legacy
-- prefixes, at most one REX prefix, an opcode, two bytes, and two fields of 0, 1, 2, 4 or 8 bytes.
pub build_sliding_candidate-SlidingParts :
    (g : Rng) (junk : Opcode)
    → length junk.op ≡ 5
    → Returns (λ c. (w : List ℕ) × SlidingParts w × Holds w c) (build_sliding_candidate g junk)
unfolding build_sliding_candidate
build_sliding_candidate-SlidingParts g junk five =
    Returns-bind (fill_legacy-Wrote g [] 4 0 (Wrote-nil zeroed.insn) refl (omega arith))
      λ insn (p, four, legacy, wrote). Returns-bind (Returns-rand_byte g) λ r _.
        Returns-bind
          (rex_case-Holds g {w = p} (record { wrote = wrote; counted = omega arith; unslid = refl })
            (r % 3) (omega arith))
          λ c (x, is_rex, h). Returns-bind (rand_opcode-Made g junk five) λ opc made.
            Returns-bind (load-Made opc made) λ o is_opcode.
              Returns-bind
                (append-Holds g h o (
                  omega
                    (arith, length-append p x, length-AtMostOne is_rex, length-IsOpcode is_opcode)))
                λ c h.
                  let short : length (p ++ x ++ o) ≤ 10 = omega (
                    arith,
                    length-append p x,
                    length-append (p ++ x) o,
                    length-AtMostOne is_rex,
                    length-IsOpcode is_opcode,
                  ) in
                  Returns-imp (modrm_onwards-Holds g h short) λ c (m, s, d, i, hm, hs, hd, hi, h). (
                    p ++ x ++ o ++ (m ∷ []) ++ (s ∷ []) ++ d ++ i,
                    record {
                      prefixes = p;
                      rex = x;
                      opcode = o;
                      modrm = m;
                      sib = s;
                      disp = d;
                      imm = i;
                      four = four;
                      all_legacy = legacy;
                      is_rex = is_rex;
                      is_opcode = is_opcode;
                      modrm_byte = hm;
                      sib_byte = hs;
                      is_disp = hd;
                      is_imm = hi;
                      whole = refl;
                    },
                    h,
                  )

-- Such a candidate has 7 to 28 bytes.
pub length-SlidingParts : {w : List ℕ} → SlidingParts w → (7 ≤ length w) × (length w ≤ insn_size)
length-SlidingParts {w} p = rw p.whole (simp length-append parts)
  where
    parts :
        (7
          ≤ length p.prefixes
            + length p.rex
            + length p.opcode
            + 1
            + 1
            + length p.disp
            + length p.imm)
        × (length p.prefixes + length p.rex + length p.opcode + 1 + 1 + length p.disp + length p.imm
            ≤ insn_size)
    parts = omega (
      arith,
      length-AtMostOne p.is_rex,
      length-IsOpcode p.is_opcode,
      length-IsField p.disp p.is_disp,
      length-IsField p.imm p.is_imm,
    )
