-- ===== src/Mutator/Prefix.antt =====
-- What the loop over the legacy prefixes stores, and optional bytes.
use mishegos.Base.{
  ℕ, zero, suc, ◌+◌, ◌≤◌, ◌≡◌, refl, inl, inr, List, [], ◌∷◌, ◌++◌, length, Elem, arith, All,
  append_assoc, length-append, append-nil,
}
use mishegos.Gen.{Rng}
use mishegos.Gen.Returns.{
  Returns, Returns-pure, Returns-imp, Returns-bind, Returns-rand_byte, Returns-store, Wrote,
}
use mishegos.Mutator.Opcode.{pick, legacy_prefixes}
use mishegos.Mutator.Opcode.Format.{pick-Elem}
use mishegos.Mutator.Candidate.{fill_legacy}

abbrev pub IsLegacy : ℕ → Type 0
IsLegacy b = Elem b legacy_prefixes

pub fill_legacy-Wrote :
    (g : Rng) {old : List ℕ} (w : List ℕ) (n i : ℕ) {buf : List ℕ}
    → Wrote old w buf
    → i ≡ length w
    → length w + n ≤ length old
    → Returns
        (λ buf'. (p : List ℕ) × (length p ≡ n) × All IsLegacy p × Wrote old (w ++ p) buf')
        (fill_legacy g n i buf)
unfolding fill_legacy
fill_legacy-Wrote g {old} w zero i {buf} h e room = Returns-pure _ ([], refl, tt, rw append-nil h)
fill_legacy-Wrote g {old} w (suc n) i h e room = Returns-bind (Returns-rand_byte g) λ r _.
    let b = pick legacy_prefixes r in
    Returns-bind (Returns-store i (b ∷ []) h e (omega arith)) λ buf' h'.
      Returns-imp
        (fill_legacy-Wrote g (w ++ b ∷ []) n (i + 1) h' (omega (arith, length-append w (b ∷ [])))
          (omega (arith, length-append w (b ∷ []))))
        λ _ (p, n', all, h''). (
          b ∷ p,
          omega arith,
          (pick-Elem legacy_prefixes r (omega arith), all),
          rw append_assoc at h'',
        )

-- No byte, or one that satisfies `P`.
pub data AtMostOne (P : ℕ → Type 0) : List ℕ → Type 0 where
  nothing : AtMostOne P []
  just_one : {b : ℕ} → P b → AtMostOne P (b ∷ [])

pub length-AtMostOne : {P : ℕ → Type 0} {r : List ℕ} → AtMostOne P r → length r ≤ 1
length-AtMostOne nothing = omega arith
length-AtMostOne (just_one _) = omega arith

pub All-Elem : (P : ℕ → Type 0) (table : List ℕ) {b : ℕ} → All P table → Elem b table → P b
All-Elem P [] all h = absurd h
All-Elem P (x ∷ xs) all (inl e) = rw e all.0
All-Elem P (x ∷ xs) all (inr h) = All-Elem P xs all.1 h
