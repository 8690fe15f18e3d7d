-- ===== src/Mutator/Manual/Spending.antt =====
-- src/mishegos/mutator.c: what a call of `manual_candidate` takes from stdin.
use mishegos.Base.{
  ℕ, suc, ◌+◌, ◌*◌, ◌≤◌, ◌≡◌, Bool, false, ◌||◌, none, some, List, [], ◌∷◌, length, arith, ltb,
  ◌==◌, if◌then◌else◌, Bool-cases, Option-cases, inl, inr,
}
use mishegos.Slots.{InputSlot, mishegos_insn_maxlen}
use mishegos.Gen.{store, overwrite}
use mishegos.Gen.Returns.{Spends, Spends-pure, Spends-bind}
use mishegos.Mutator.Manual.{hex2bytes, read_line, getline, chop, take_hex, manual_candidate}

length-read_line : (c : ℕ) (cs : List ℕ) → suc (length (read_line (c ∷ cs)).1) ≤ length (c ∷ cs)
unfolding read_line
length-read_line c [] = elim (Bool-cases (c == 10)) [
  | inl ends ↦ rw ends (omega arith)
  | inr goes ↦ rw goes (omega arith)
]
length-read_line c (d ∷ cs) = elim (Bool-cases (c == 10)) [
  | inl ends ↦ rw ends (omega arith)
  | inr goes ↦ rw goes (omega (arith, length-read_line d cs))
]

Spends-store :
    {S : Type 0} {left : S → ℕ} (k : ℕ) (buf : List ℕ) (off : ℕ) (src : List ℕ)
    → Spends left k (λ raw. k) (store buf off src)
unfolding store
Spends-store k buf off src = record {
  spend = λ s raw s' e. elim (Option-cases (overwrite buf off src)) [
    | inl gone ↦ let e' : none ≡ some (raw, s') = rw (gone, store) at e in absurd (cc)
    | inr (raw', wrote) ↦
        let e' : some (raw', s) ≡ some (raw, s') = rw (wrote, store) at e in
        let same : s ≡ s' = cc in rw same (omega arith)
  ];
}

take_hex-Spends :
    (text : List ℕ) (slot : InputSlot)
    → Spends (λ stdin. length stdin) 1 (λ res. if res.0 then 1 else 0) (take_hex text slot)
unfolding take_hex
take_hex-Spends text slot =
    elim (Bool-cases (length text == 0 || ltb (mishegos_insn_maxlen * 2) (length text))) [
      | inl bad ↦ rw bad (Spends-pure _ (omega arith))
      | inr good ↦ rw good (
          Spends-bind (Spends-store 1 slot.raw_insn 0 (hex2bytes text))
            λ raw. Spends-pure _ (omega arith))
    ]

-- What stdin holds counts the calls that can fill a slot.
pub manual_candidate-Spends :
    (slot : InputSlot)
    → Spends (λ stdin. length stdin) 0 (λ res. if res.0 then 1 else 0) (manual_candidate slot)
unfolding manual_candidate getline
manual_candidate-Spends slot = record {
  spend = λ stdin res rest e. omega (arith, spend stdin res rest e);
}
  where
    spend :
        (stdin : List ℕ) (res : Bool × InputSlot) (rest : List ℕ)
        → manual_candidate slot stdin ≡ some (res, rest)
        → (if res.0 then 1 else 0) + length rest ≤ length stdin
    spend [] res rest e =
        let same : (false, slot) ≡ res = cc in
        let kept : [] ≡ rest = cc in rw (← same, ← kept) (omega arith)
    spend (c ∷ cs) res rest e =
        let h = (take_hex-Spends (chop (read_line (c ∷ cs)).0) slot).spend _ res rest e in
        omega (arith, length-read_line c cs)
