-- ===== src/Mutator/Select/Names.antt =====
-- src/mishegos/mutator.c: the names of `mutator_create`.
use mishegos.Base.{
  ℕ, ◌≡◌, refl, ◌≢◌, ap, ◌∙◌, ◌⊎◌, inl, inr, Option, none, some, List, codes, same_text,
  same_text_eq, Bool-cases, Option-cases, if◌then◌else◌,
}
use mishegos.Gen.{Rng}
use mishegos.Mutator.Select.{
  Mutator, dummy, sliding, structured, havoc, manual, Globals, mutator_by_name, mutator_create,
}

-- The names that the README and the usage text give.
abbrev pub name_of : Mutator → List ℕ
name_of dummy = codes "dummy"
name_of sliding = codes "sliding"
name_of structured = codes "structured"
name_of havoc = codes "havoc"
name_of manual = codes "manual"

mutator_by_name-name_of : (m : Mutator) → mutator_by_name (name_of m) ≡ some m
unfolding mutator_by_name same_text
mutator_by_name-name_of dummy = refl
mutator_by_name-name_of sliding = refl
mutator_by_name-name_of structured = refl
mutator_by_name-name_of havoc = refl
mutator_by_name-name_of manual = refl

-- One comparison: the name is the one compared with, or what the others find.
name_of_first :
    (name : List ℕ) (m m' : Mutator) (rest : Option Mutator)
    → (rest ≡ some m' → name ≡ name_of m')
    → (if same_text name (name_of m) then some m else rest) ≡ some m'
    → name ≡ name_of m'
name_of_first name m m' rest others e = elim (Bool-cases (same_text name (name_of m))) [
  | inl same ↦
      let e' : some m ≡ some m' = rw same at e in
      let found : m ≡ m' = cc in same_text_eq name (name_of m) same ∙ ap name_of found
  | inr other ↦ let e' : rest ≡ some m' = rw other at e in others e'
]

-- A name that is found is the name of what is found.
name_of_found : (name : List ℕ) (m : Mutator) → mutator_by_name name ≡ some m → name ≡ name_of m
unfolding mutator_by_name
name_of_found name m = name_of_first name dummy m _ (
    name_of_first name sliding m _ (
      name_of_first name structured m _
        (name_of_first name havoc m _ (name_of_first name manual m none λ e. absurd (cc)))))

-- `mutator_create` gives the generator that the name stands for, with the generator of random numbers
-- seeded and the other variables as they were, and it fails on every text that is no generator's name.
pub mutator_create-name :
    {g : Rng} (random : g.State) (name : List ℕ) (s : Globals g)
    → ((m : Mutator) × (name ≡ name_of m)
        × (mutator_create random (some name) s ≡ some (m, record s { rng_state = random })))
      ⊎ (((m : Mutator) → name ≢ name_of m) × (mutator_create random (some name) s ≡ none))
unfolding mutator_create
mutator_create-name random name s = elim (Option-cases (mutator_by_name name)) [
  | inl unknown ↦ inr (
    λ m e.
        let found : mutator_by_name name ≡ some m =
          ap mutator_by_name e ∙ mutator_by_name-name_of m in
        absurd (cc),
    rw (unknown, mutator_create) refl,
  )
  | inr (m, found) ↦ inl (m, name_of_found name m found, rw (found, mutator_create) refl)
]

-- What a name, or no name, stands for.
abbrev pub Named : Option (List ℕ) → Mutator → Type 0
Named none m = m ≡ sliding
Named (some name) m = name ≡ name_of m

pub mutator_create-Named :
    {g : Rng} (random : g.State) (name : Option (List ℕ)) (m : Mutator) (s : Globals g)
    → Named name m
    → mutator_create random name s ≡ some (m, record s { rng_state = random })
unfolding mutator_create
mutator_create-Named random none m s e = rw e refl
mutator_create-Named random (some name) m s e =
    let found : mutator_by_name name ≡ some m = ap mutator_by_name e ∙ mutator_by_name-name_of m in
    rw (found, mutator_create) refl
