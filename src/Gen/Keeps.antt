-- ===== src/Gen/Keeps.antt =====
-- Generators that keep an invariant of their state: rules for the steps of a do block.
use mishegos.Base.{◌≡◌, refl, some}
use mishegos.Gen.{Gen, ◌>>=◌, pure}
use mishegos.Gen.Returns.{Returns}

-- From every state that satisfies `I` the run has a result and leaves a state that satisfies `I`; the
-- result satisfies `P`.
pub record Keeps {S A : Type 0} (I : S → Type 0) (P : A → Type 0) (m : Gen S A) : Type 0 where
  pub keep : (s : S) → I s → (a : A) × (s' : S) × (m s ≡ some (a, s')) × I s' × P a

abbrev pub Any : {S : Type 0} → S → Type 0
Any s = Unit

pub Keeps-Returns : {S A : Type 0} {P : A → Type 0} {m : Gen S A} → Returns P m → Keeps Any P m
Keeps-Returns h = record { keep = λ s _. let (a, s', e, p) = h.run s in (a, s', e, tt, p) }

module _ {S : Type 0} {I : S → Type 0} where
  pub Keeps-pure : {A : Type 0} {P : A → Type 0} (a : A) → P a → Keeps I P (pure a)
  Keeps-pure a h = record { keep = λ s i. (a, s, refl, i, h) }

  pub Keeps-bind :
      {A B : Type 0} {P : A → Type 0} {Q : B → Type 0} {m : Gen S A} {f : A → Gen S B}
      → Keeps I P m
      → ((a : A) → P a → Keeps I Q (f a))
      → Keeps I Q (m >>= f)
  Keeps-bind {f} hm hf = record {
    keep = λ s i.
        let (a, s', e, i', p) = hm.keep s i in
        let (b, s'', e', i'', q) = (hf a p).keep s' i' in (b, s'', rw (e, ◌>>=◌) e', i'', q);
  }

  -- A step with a known result.
  pub Keeps-bind_eq :
      {A B : Type 0} {Q : B → Type 0} {m : Gen S A} (f : A → Gen S B) (v : A)
      → Keeps I (λ a. a ≡ v) m
      → Keeps I Q (f v)
      → Keeps I Q (m >>= f)
  Keeps-bind_eq f v hm hf = Keeps-bind hm λ a e. rw e hf

  pub Keeps-imp :
      {A : Type 0} {P Q : A → Type 0} {m : Gen S A}
      → Keeps I P m
      → ((a : A) → P a → Q a)
      → Keeps I Q m
  Keeps-imp hm k = record {
    keep = λ s i. let (a, s', e, i', p) = hm.keep s i in (a, s', e, i', k a p);
  }
