-- ===== src/Mutator/Select.antt =====
-- src/mishegos/mutator.c: `mutator_create` chooses the generator of candidates by its name.
pub mod Names
pub mod Calls
use mishegos.Base.{ℕ, Bool, Option, none, some, List, codes, same_text, if◌then◌else◌}
use mishegos.Slots.{InputSlot}
use mishegos.Gen.{Rng, Gen, ◌>>=◌, pure}
use mishegos.Mutator.Opcode.{Opcode}
use mishegos.Mutator.Candidate.{InsnCandidate, sliding_candidate}
use mishegos.Mutator.Havoc.{havoc_candidate, dummy_candidate}
use mishegos.Mutator.Structured.{structured_candidate}
use mishegos.Mutator.Manual.{manual_candidate}

-- The functions that a `mutator_t` points to.
pub data Mutator : Type 0 where
  dummy : Mutator
  sliding : Mutator
  structured : Mutator
  havoc : Mutator
  manual : Mutator

-- `rng_state` and `insn_cand` are static variables; stdin is what it still holds.
pub record Globals (g : Rng) : Type 0 where
  pub rng_state : g.State
  pub insn_cand : InsnCandidate
  pub stdin : List ℕ

-- The comparisons of `mutator_create`, one behind the other; at their end `errx` gives up.
unfoldable pub mutator_by_name : List ℕ → Option Mutator
mutator_by_name name =
    if same_text name (codes "dummy")
    then some dummy
    else if same_text name (codes "sliding")
    then some sliding
    else if same_text name (codes "structured")
    then some structured
    else if same_text name (codes "havoc")
    then some havoc
    else if same_text name (codes "manual")
    then some manual
    else none

-- `random` is what getrandom leaves in `rng_state`.
unfoldable pub mutator_create :
    {g : Rng} → g.State → Option (List ℕ) → Globals g → Option (Mutator × Globals g)
unfolding mutator_by_name
mutator_create random none s = some (sliding, record s { rng_state = random })
mutator_create random (some name) s = elim (mutator_by_name name) [
  | none ↦ none
  | some m ↦ some (m, record s { rng_state = random })
]

-- A generator that uses `rng_state` alone.
unfoldable pub on_rng : {A : Type 0} (g : Rng) → Gen g.State A → Gen (Globals g) A
on_rng g m s = elim (m s.rng_state) [
  | none ↦ none
  | some (a, r) ↦ some (a, record s { rng_state = r })
]

unfoldable pub on_stdin : {A : Type 0} (g : Rng) → Gen (List ℕ) A → Gen (Globals g) A
on_stdin g m s = elim (m s.stdin) [
  | none ↦ none
  | some (a, rest) ↦ some (a, record s { stdin = rest })
]

unfoldable pub keep_cand :
    (g : Rng) → Bool × InputSlot × InsnCandidate → Gen (Globals g) (Bool × InputSlot)
keep_cand g (filled, slot, c) s = some ((filled, slot), record s { insn_cand = c })

-- The call through the pointer; `junk` is what the uninitialised `opcode` variables hold.
unfoldable pub call_mutator :
    (g : Rng) → Opcode → Mutator → InputSlot → Gen (Globals g) (Bool × InputSlot)
unfolding on_rng on_stdin keep_cand
call_mutator g junk dummy slot s = on_rng g (dummy_candidate g slot) s
call_mutator g junk sliding slot s =
    (on_rng g (sliding_candidate g junk s.insn_cand slot) >>= keep_cand g) s
call_mutator g junk structured slot s = on_rng g (structured_candidate g junk slot) s
call_mutator g junk havoc slot s = on_rng g (havoc_candidate g slot) s
call_mutator g junk manual slot s = on_stdin g (manual_candidate slot) s
