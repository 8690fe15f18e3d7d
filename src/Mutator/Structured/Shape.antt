-- ===== src/Mutator/Structured/Shape.antt =====
-- What `structured_candidate` puts into a slot.
use mishegos.Base.{
  ℕ, ◌+◌, ◌-◌, ◌%◌, ◌≤◌, ◌<◌, ◌≡◌, refl, ap, ◌∙◌, true, List, [], ◌∷◌, ◌++◌, length, take, Elem,
  arith, All, length-append, append-nil, ltb, if◌then◌else◌,
}
use mishegos.Bytes.{IsByte}
use mishegos.Slots.{InputSlot, mishegos_insn_maxlen}
use mishegos.Gen.{Rng, Gen}
use mishegos.Gen.Returns.{
  Returns, Returns-pure, Returns-imp, Returns-bind, Returns-rand_byte, Returns-rand_long,
  Returns-store, Returns-load_le, Wrote, Wrote-nil, length-Wrote, take-Wrote,
}
use mishegos.Mutator.Opcode.{Opcode, pick, rex_prefixes}
use mishegos.Mutator.Opcode.Format.{
  IsOpcode, length-IsOpcode, pick-Elem, rand_opcode-Made, load-Made, Returns-if,
}
use mishegos.Mutator.Prefix.{
  IsLegacy, fill_legacy-Wrote, AtMostOne, nothing, just_one, length-AtMostOne,
}
use mishegos.Mutator.Structured.{
  Draft, extend, maybe, random_rex, random_byte, fill_tail, structured_candidate,
}

abbrev pub IsRex : ℕ → Type 0
IsRex b = Elem b rex_prefixes

-- The parts of a structured candidate, in order.
pub record StructuredParts (w : List ℕ) : Type 0 where
  pub prefixes : List ℕ
  pub rex : List ℕ
  pub opcode : List ℕ
  pub modrm : List ℕ
  pub sib : List ℕ
  pub tail : List ℕ
  pub up_to_four : length prefixes ≤ 4
  pub all_legacy : All IsLegacy prefixes
  pub is_rex : AtMostOne IsRex rex
  pub is_opcode : IsOpcode opcode
  pub is_modrm : AtMostOne IsByte modrm
  pub is_sib : AtMostOne IsByte sib
  pub up_to_five : length tail ≤ 5
  pub whole : w ≡ prefixes ++ rex ++ opcode ++ modrm ++ sib ++ tail

-- The first `len` bytes of the slot are `w`.
record Drafted (old w : List ℕ) (d : Draft) : Type 0 where
  wrote : Wrote old w d.raw_insn
  counted : d.len ≡ length w

module _ (g : Rng) {old w : List ℕ} {d : Draft} (full : length old ≡ 15) (h : Drafted old w d) where
  extend-Drafted :
      (src : List ℕ)
      → length w + length src ≤ 15
      → Returns (Drafted old (w ++ src)) (extend g d src)
  unfolding extend
  extend-Drafted src room =
      Returns-bind (Returns-store d.len src h.wrote h.counted (omega arith)) λ raw w'.
        Returns-pure _
          (record { wrote = w'; counted = omega (arith, length-append w src, h.counted) })

  -- A step that appends one byte at most appends one byte at most if it is left to chance.
  maybe-Drafted :
      {P : ℕ → Type 0} (step : Draft → Gen g.State Draft)
      → Returns (λ d'. (b : ℕ) × P b × Drafted old (w ++ b ∷ []) d') (step d)
      → Returns (λ d'. (l : List ℕ) × AtMostOne P l × Drafted old (w ++ l) d') (maybe g d step)
  unfolding maybe
  maybe-Drafted step hs = Returns-bind (Returns-rand_byte g) λ r _.
      Returns-if _ (Returns-pure _ ([], nothing, rw append-nil h))
        (Returns-imp hs λ _ (b, hb, h'). (b ∷ [], just_one hb, h'))

  random_byte-Drafted :
      length w < 15
      → Returns (λ d'. (b : ℕ) × IsByte b × Drafted old (w ++ b ∷ []) d') (random_byte g d)
  unfolding random_byte
  random_byte-Drafted room =
      Returns-bind (Returns-rand_byte g)
        λ b hb. Returns-imp (extend-Drafted (b ∷ []) (omega arith)) λ _ h'. (b, hb, h')

  random_rex-Drafted :
      length w < 15
      → Returns (λ d'. (b : ℕ) × IsRex b × Drafted old (w ++ b ∷ []) d') (random_rex g d)
  unfolding random_rex
  random_rex-Drafted room = Returns-bind (Returns-rand_byte g) λ r _.
      Returns-imp (extend-Drafted (pick rex_prefixes r ∷ []) (omega arith))
        λ _ h'. (pick rex_prefixes r, pick-Elem rex_prefixes r (omega arith), h')

  fill_tail-Drafted :
      length w ≤ 15
      → Returns
          (λ d'. (t : List ℕ) × (length t ≤ 5) × (length (w ++ t) ≤ 15) × Drafted old (w ++ t) d')
          (fill_tail g d)
  unfolding fill_tail
  fill_tail-Drafted room = Returns-bind (Returns-rand_long g) λ v _.
      Returns-bind (Returns-rand_byte g) λ r _.
        let n = if ltb 15 (d.len + r % 6) then 15 - d.len else r % 6 in
        let few : n ≤ 5 = ground arith in
        let fits : length w + n ≤ 15 = ground (arith, h.counted) in
        Returns-bind (Returns-load_le 8 v n (omega arith)) λ t (nt, _).
          Returns-imp (extend-Drafted t (omega arith))
            λ _ h'. (t, omega arith, omega (arith, length-append w t), h')

-- The slot holds a structured candidate, and `len` counts it.
pub record IsStructured (slot : InputSlot) : Type 0 where
  pub bytes : List ℕ
  pub parts : StructuredParts bytes
  pub short : length bytes ≤ mishegos_insn_maxlen
  pub counted : slot.len ≡ length bytes
  pub contents : take slot.len slot.raw_insn ≡ bytes
  pub size : length slot.raw_insn ≡ mishegos_insn_maxlen

-- From every generator state `structured_candidate` fills the slot, within its 15 bytes, with up to 4
-- legacy prefixes, at most one valid REX prefix, an opcode, at most one ModR/M and one SIB byte, and
-- at most 5 more bytes.
pub structured_candidate-IsStructured :
    (g : Rng) (junk : Opcode) (slot : InputSlot)
    → length junk.op ≡ 5
    → length slot.raw_insn ≡ mishegos_insn_maxlen
    → Returns (λ r. (r.0 ≡ true) × IsStructured r.1) (structured_candidate g junk slot)
unfolding structured_candidate
structured_candidate-IsStructured g junk slot five full = Returns-bind (Returns-rand_byte g) λ r _.
    Returns-bind (fill_legacy-Wrote g [] (r % 5) 0 (Wrote-nil slot.raw_insn) refl (omega arith))
      λ raw (p, np, legacy, wrote).
        Returns-bind
          (maybe-Drafted g full (record { wrote = wrote; counted = omega (arith, np) })
            (random_rex g)
            (random_rex-Drafted g full (record { wrote = wrote; counted = omega (arith, np) })
              (omega arith)))
          λ d (x, hx, h).
            let n = length-append p x in
            Returns-bind (rand_opcode-Made g junk five) λ opc made.
              Returns-bind (load-Made opc made) λ o ho.
                let n' = length-append (p ++ x) o in
                let short : length (p ++ x ++ o) ≤ 10 =
                  omega (arith, length-AtMostOne hx, length-IsOpcode ho) in
                Returns-bind
                  (extend-Drafted g full h o
                    (omega (arith, length-AtMostOne hx, length-IsOpcode ho)))
                  λ d h.
                    Returns-bind
                      (maybe-Drafted g full h (random_byte g)
                        (random_byte-Drafted g full h (omega arith)))
                      λ d (m, hm, h).
                        let n'' = length-append (p ++ x ++ o) m in
                        Returns-bind
                          (maybe-Drafted g full h (random_byte g)
                            (random_byte-Drafted g full h (omega (arith, length-AtMostOne hm))))
                          λ d (s, hs, h).
                            let n''' = length-append (p ++ x ++ o ++ m) s in
                            Returns-bind
                              (fill_tail-Drafted g full h
                                (omega (arith, length-AtMostOne hm, length-AtMostOne hs)))
                              λ d (t, few, fits, h). Returns-pure _ (
                                refl,
                                record {
                                  bytes = p ++ x ++ o ++ m ++ s ++ t;
                                  parts = record {
                                    prefixes = p;
                                    rex = x;
                                    opcode = o;
                                    modrm = m;
                                    sib = s;
                                    tail = t;
                                    up_to_four = omega arith;
                                    all_legacy = legacy;
                                    is_rex = hx;
                                    is_opcode = ho;
                                    is_modrm = hm;
                                    is_sib = hs;
                                    up_to_five = few;
                                    whole = refl;
                                  };
                                  short = fits;
                                  counted = h.counted;
                                  contents =
                                      ap (λ (k : ℕ). take k d.raw_insn) h.counted
                                      ∙ take-Wrote h.wrote;
                                  size = omega (arith, length-Wrote h.wrote);
                                },
                              )
