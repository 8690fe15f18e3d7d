-- ===== src/Gen/Returns.antt =====
-- What a generator returns, from every state: rules for the steps of a do block.
use mishegos.Base.{
  ℕ, ◌+◌, ◌≤◌, ◌<◌, ◌^◌, ◌≡◌, refl, ap, sym, ◌∙◌, some, [], List, ◌++◌, length, take, drop, arith,
  length-append, take_append, drop_append, drop-drop, append_assoc, append-nil, drop_all,
  length-take, All, All-take, le→leb, length-drop, inl, inr, Option-cases,
}
use mishegos.Bytes.{IsByte, le_bytes, length-le_bytes, le_bytes-IsByte}
use mishegos.Gen.{Rng, Gen, ◌>>=◌, pure, rand_long, rand_byte, store, load, overwrite}

-- From every state the run has a result, and the result satisfies `P`.
pub record Returns {S A : Type 0} (P : A → Type 0) (m : Gen S A) : Type 0 where
  pub run : (s : S) → (a : A) × (s' : S) × (m s ≡ some (a, s')) × P a

pub Returns-pure : {S A : Type 0} {P : A → Type 0} (a : A) → P a → Returns {S = S} P (pure a)
Returns-pure a h = record { run = λ s. (a, s, refl, h) }

pub Returns-bind :
    {S A B : Type 0} {P : A → Type 0} {Q : B → Type 0} {m : Gen S A} {f : A → Gen S B}
    → Returns P m
    → ((a : A) → P a → Returns Q (f a))
    → Returns Q (m >>= f)
Returns-bind {f} hm hf = record {
  run = λ s.
      let (a, s', e, p) = hm.run s in
      let (b, s'', e', q) = (hf a p).run s' in (b, s'', rw (e, ◌>>=◌) e', q);
}

pub Returns-imp :
    {S A : Type 0} {P Q : A → Type 0} {m : Gen S A}
    → Returns P m
    → ((a : A) → P a → Q a)
    → Returns Q m
Returns-imp hm k = record { run = λ s. let (a, s', e, p) = hm.run s in (a, s', e, k a p) }

pub Returns-rand_byte : (g : Rng) → Returns (λ b. b < 256) (rand_byte g)
unfolding rand_byte
Returns-rand_byte g = record {
  run = λ s. ((g.next_byte s).0, (g.next_byte s).1, refl, g.next_byte_lt s);
}

pub Returns-rand_long : (g : Rng) → Returns (λ b. b < 2 ^ 64) (rand_long g)
unfolding rand_long
Returns-rand_long g = record {
  run = λ s. ((g.next_long s).0, (g.next_long s).1, refl, g.next_long_lt s);
}

-- `buf` is `old` with its front replaced by `w`.
pub record Wrote (old w buf : List ℕ) : Type 0 where
  pub fits : length w ≤ length old
  pub contents : buf ≡ w ++ drop (length w) old

pub length-Wrote : {old w buf : List ℕ} → Wrote old w buf → length buf ≡ length old
length-Wrote {old} {w} h =
    ap length h.contents
    ∙ length-append w (drop (length w) old)
    ∙ omega (arith, length-drop (length w) old, h.fits)

pub Wrote-nil : (old : List ℕ) → Wrote old [] old
Wrote-nil old = record { fits = omega arith; contents = refl }

-- What follows the front is left as it was.
drop-Wrote :
    {old w buf : List ℕ} (n : ℕ)
    → Wrote old w buf
    → drop (length w + n) buf ≡ drop (length w + n) old
drop-Wrote {old} {w} {buf} n h =
    sym (drop-drop (length w) n buf)
    ∙ ap (λ (l : List ℕ). drop n (drop (length w) l)) h.contents
    ∙ ap (drop n) (drop_append w (drop (length w) old))
    ∙ drop-drop (length w) n old

pub take-Wrote : {old w buf : List ℕ} → Wrote old w buf → take (length w) buf ≡ w
take-Wrote {old} {w} h = ap (take (length w)) h.contents ∙ take_append w (drop (length w) old)

pub overwrite-Wrote :
    {old w buf : List ℕ} (off : ℕ) (src : List ℕ)
    → Wrote old w buf
    → off ≡ length w
    → length w + length src ≤ length old
    → (buf' : List ℕ) × (overwrite buf off src ≡ some buf') × Wrote old (w ++ src) buf'
unfolding overwrite
overwrite-Wrote {old} {w} {buf} off src h e room = (
  take off buf ++ (src ++ drop (off + length src) buf),
  rw (le→leb (off + length src) (length buf) (omega (arith, length-Wrote h))),
  record {
    fits = omega (arith, length-append w src);
    contents =
        rw (e, take-Wrote h, drop-Wrote (length src) h, length-append w src)
          (sym (append_assoc w src (drop (length w + length src) old)));
  },
)

-- Storing `src` just behind what was written extends it.
pub Returns-store :
    {S : Type 0} {old w buf : List ℕ} (off : ℕ) (src : List ℕ)
    → Wrote old w buf
    → off ≡ length w
    → length w + length src ≤ length old
    → Returns {S = S} (Wrote old (w ++ src)) (store buf off src)
unfolding store
Returns-store off src h e room = record {
  run = λ s. let (buf', p, h') = overwrite-Wrote off src h e room in (buf', s, rw (p, store), h');
}

-- Reading inside the buffer.
pub Returns-load :
    {S : Type 0} (buf : List ℕ) (off n : ℕ)
    → off + n ≤ length buf
    → Returns {S = S} (λ l. l ≡ take n (drop off buf)) (load buf off n)
unfolding load
Returns-load buf off n h = record {
  run = λ s. (take n (drop off buf), s, rw (le→leb (off + n) (length buf) h), refl);
}

-- A step with a known result.
pub Returns-bind_eq :
    {S A B : Type 0} {Q : B → Type 0} {m : Gen S A} (f : A → Gen S B) (v : A)
    → Returns (λ a. a ≡ v) m
    → Returns Q (f v)
    → Returns Q (m >>= f)
Returns-bind_eq f v hm hf = Returns-bind hm λ a e. rw e hf

-- Reading the first bytes of an integer.
pub Returns-load_le :
    {S : Type 0} (m v n : ℕ)
    → n ≤ m
    → Returns {S = S} (λ l. (length l ≡ n) × All IsByte l) (load (le_bytes m v) 0 n)
Returns-load_le m v n h =
    let long = length-le_bytes m v in
    Returns-imp (Returns-load (le_bytes m v) 0 n (omega arith)) λ l e. rw e (
      length-take n (le_bytes m v) (omega arith),
      All-take IsByte n (le_bytes m v) (le_bytes-IsByte m v),
    )

-- What fills the buffer is its contents.
pub Wrote_full : {old w buf : List ℕ} → Wrote old w buf → length w ≡ length old → buf ≡ w
Wrote_full {old} {w} h full =
    h.contents ∙ ap (w ++◌) (drop_all (length w) old (omega arith)) ∙ append-nil w

-- A copy to the front of a buffer, as an equation.
pub store_front :
    {S : Type 0} (old src : List ℕ) (s : S)
    → length src ≤ length old
    → store old 0 src s ≡ some (src ++ drop (length src) old, s)
unfolding store
store_front old src s h =
    let (buf, e, w) = overwrite-Wrote 0 src (Wrote-nil old) refl (omega arith) in
    rw (e, store) (rw w.contents)

-- A run from `s` that has a result spends from what `left` counts: `cost` of the result and what is left
-- then are at most `k` and what was left before.
pub record Spends {S A : Type 0} (left : S → ℕ) (k : ℕ) (cost : A → ℕ) (m : Gen S A) : Type 0 where
  pub spend : (s : S) (a : A) (s' : S) → m s ≡ some (a, s') → cost a + left s' ≤ k + left s

pub Spends-pure :
    {S A : Type 0} {left : S → ℕ} {k : ℕ} {cost : A → ℕ} (a : A)
    → cost a ≤ k
    → Spends left k cost (pure a)
Spends-pure {left} {k} {cost} a h = record {
  spend =
      λ s a' s' e. let ea : a ≡ a' = cc in let es : s ≡ s' = cc in rw (← ea, ← es) (omega arith);
}

pub Spends-bind :
    {S A B : Type 0} {left : S → ℕ} {k : ℕ} {c : A → ℕ} {cost : B → ℕ} {m : Gen S A}
    {f : A → Gen S B}
    → Spends left k c m
    → ((a : A) → Spends left (c a) cost (f a))
    → Spends left k cost (m >>= f)
Spends-bind {left} {m} {f} hm hf = record {
  spend = λ s b s' e. elim (Option-cases (m s)) [
    | inl gone ↦ absurd (cc)
    | inr ((a, s1), here) ↦
        let first = hm.spend s a s1 here in
        let rest : f a s1 ≡ some (b, s') = rw (here, ◌>>=◌) at e in
        let second = (hf a).spend s1 b s' rest in omega arith
  ];
}

pub Spends-frame :
    {S A : Type 0} {left : S → ℕ} {c : A → ℕ} {m : Gen S A} (k : ℕ)
    → Spends left 0 c m
    → Spends left k (λ a. k + c a) m
Spends-frame k hm = record { spend = λ s a s' e. let h = hm.spend s a s' e in omega arith }
