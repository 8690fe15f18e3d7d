-- ===== src/Fuzzer/Process/Filter.antt =====
-- Which samples `process` keeps.
use mishegos.Base.{
  ℕ, ◌+◌, ◌-◌, ◌≤◌, ◌≡◌, ◌↔◌, ◌⊎◌, inl, inr, refl, sym, ◌∙◌, Bool, true, false, not, ◌&&◌, ◌||◌,
  List, [], ◌∷◌, length, ◌==◌, if◌then◌else◌, Elem, arith, Bool-cases,
}
use mathlib.Core.Path.{subst}
use mathlib.Core.Bool.{false≢true}
use mishegos.Base.Int.{pos, negsuc, ◌≤ℤ◌, leb_ℤ}
use mishegos.Slots.{s_success}
use mishegos.Fuzzer.Process.{
  FilterConfig, count_from_end, resolve_filter, WorkerSlot, scan_start, scan_output, scan, keep,
}

-- The numbers of bytes that the successful workers decoded.
pub successes : List WorkerSlot → List ℕ
successes [] = []
successes (w ∷ ws) =
    if w.output.status == s_success then w.output.ndecoded ∷ successes ws else successes ws

abbrev pub AllEqual : List ℕ → Type 0
AllEqual l = (a b : ℕ) → Elem a l → Elem b l → a ≡ b

agree : ℕ → List ℕ → Bool
agree n [] = true
agree n (x ∷ xs) = if n == x then agree n xs else false

all_agree : List ℕ → Bool
unfolding agree
all_agree [] = true
all_agree (x ∷ xs) = agree x xs

-- The loop from its second success on: `n` is the number that the others are held against.
scan_later :
    (ws : List WorkerSlot) (k n : ℕ) (same : Bool)
    → scan (record { num_success = k; ndecoded_same = same; last_ndecoded = pos n }) ws ≡ record {
      num_success = k + length (successes ws);
      ndecoded_same = same && agree n (successes ws);
      last_ndecoded = pos n;
    }
unfolding scan scan_output successes agree
scan_later [] k n same = ground arith
scan_later (w ∷ ws) k n same =
    ground
      (arith, scan_later ws (k + 1) n same, scan_later ws (k + 1) n false, scan_later ws k n same)

-- The loop before its first success.
scan_first :
    (ws : List WorkerSlot)
    → ((scan scan_start ws).num_success ≡ length (successes ws))
      × ((scan scan_start ws).ndecoded_same ≡ all_agree (successes ws))
unfolding scan scan_output successes all_agree
scan_first [] = (refl, refl)
scan_first (w ∷ ws) = ground (arith, scan_first ws, scan_later ws 1 w.output.ndecoded true)

agree-Elem : (n : ℕ) (l : List ℕ) → agree n l ≡ true → (a : ℕ) → Elem a l → a ≡ n
unfolding agree
agree-Elem n [] h a m = absurd m
agree-Elem n (x ∷ xs) h a m = ground (arith, agree-Elem n xs (ground arith) a)

Elem-agree : (n : ℕ) (l : List ℕ) → ((a : ℕ) → Elem a l → a ≡ n) → agree n l ≡ true
unfolding agree
Elem-agree n [] h = refl
Elem-agree n (x ∷ xs) h =
    let e = h x (inl refl) in let rest = Elem-agree n xs (λ a m. h a (inr m)) in ground arith

all_agree_iff : (l : List ℕ) → (all_agree l ≡ true) ↔ AllEqual l
unfolding all_agree
all_agree_iff [] = (λ _ a b m. absurd m, λ _. refl)
all_agree_iff (x ∷ xs) = (
  λ h a b ma mb. same h a ma ∙ sym (same h b mb),
  λ h. Elem-agree x xs (λ a m. h a x (inr m) (inl refl)),
)
  where
    same : agree x xs ≡ true → (a : ℕ) → Elem a (x ∷ xs) → a ≡ x
    same h a (inl e) = e
    same h a (inr m) = agree-Elem x xs h a m

-- The test of `keep`, over the counts of its loop.
in_range : FilterConfig → ℕ → Bool
in_range f n = leb_ℤ f.min_success (pos n) && leb_ℤ (pos n) f.max_success

in_range_iff :
    (f : FilterConfig) (n : ℕ)
    → (in_range f n ≡ true) ↔ ((f.min_success ≤ℤ pos n) × (pos n ≤ℤ f.max_success))
unfolding in_range
in_range_iff f n = (λ h. ground arith, λ h. ground arith)

keep_lem :
    (f : FilterConfig) (ws : List WorkerSlot)
    → keep f ws
      ≡ (in_range f (length (successes ws)) || (f.ndecoded_same && not (all_agree (successes ws))))
unfolding keep in_range
keep_lem f ws = let (n, same) = scan_first ws in rw (n, same)

-- The reasons for which a sample is kept.
abbrev pub Wanted : FilterConfig → List WorkerSlot → Type 0
Wanted f ws =
    ((f.min_success ≤ℤ pos (length (successes ws)))
      × (pos (length (successes ws)) ≤ℤ f.max_success))
    ⊎ ((f.ndecoded_same ≡ true) × ¬ AllEqual (successes ws))

-- A sample is kept exactly when the number of workers that succeeded is in the configured range, or
-- when -n is given and the workers that succeeded did not all decode the same number of bytes.
pub keep_iff : (f : FilterConfig) (ws : List WorkerSlot) → (keep f ws ≡ true) ↔ Wanted f ws
keep_iff f ws = rw (keep_lem f ws) (wanted, kept)
  where
    l : List ℕ
    l = successes ws

    wanted : (in_range f (length l) || (f.ndecoded_same && not (all_agree l))) ≡ true → Wanted f ws
    wanted h = elim (Bool-cases (in_range f (length l))) [
      | inl inside ↦ inl ((in_range_iff f (length l)).0 inside)
      | inr outside ↦ inr (ground arith, λ all. let same = (all_agree_iff l).1 all in ground arith)
    ]

    kept : Wanted f ws → (in_range f (length l) || (f.ndecoded_same && not (all_agree l))) ≡ true
    kept (inl inside) = rw ((in_range_iff f (length l)).1 inside)
    kept (inr (on, differ)) = elim (Bool-cases (all_agree l)) [
      | inl same ↦ absurd (differ ((all_agree_iff l).0 same))
      | inr other ↦ ground arith
    ]

from_end : (n k : ℕ) → k ≤ n → count_from_end n (negsuc k) ≡ pos (n - k)
unfolding count_from_end
from_end n k h = ground arith

from_start : (n m : ℕ) → count_from_end n (pos m) ≡ pos m
unfolding count_from_end
from_start n m = ground arith

-- A negative bound -(k + 1) stands for `nworkers - k`: the bounds m:-(k + 1) ask for at least m
-- successes, and for at least k workers without one.
pub keep_from_end :
    (m k : ℕ) (ws : List WorkerSlot)
    → k ≤ length ws
    → (keep
          (resolve_filter
            (length ws)
            (record { min_success = pos m; max_success = negsuc k; ndecoded_same = false }))
          ws
        ≡ true)
      ↔ ((m ≤ length (successes ws)) × (length (successes ws) + k ≤ length ws))
unfolding resolve_filter
keep_from_end m k ws h =
    (λ e. bounds (iff.0 (subst Kept same e)), λ e. subst Kept (sym same) (iff.1 (wanted e)))
  where
    resolved : FilterConfig
    resolved = record {
      min_success = pos m;
      max_success = pos (length ws - k);
      ndecoded_same = false;
    }

    same :
        resolve_filter
          (length ws)
          (record { min_success = pos m; max_success = negsuc k; ndecoded_same = false })
        ≡ resolved
    same = λ i. record {
      min_success = from_start (length ws) m i;
      max_success = from_end (length ws) k h i;
      ndecoded_same = false;
    }

    Kept : FilterConfig → Type 0
    Kept f = keep f ws ≡ true

    iff : Kept resolved ↔ Wanted resolved ws
    iff = keep_iff resolved ws

    bounds :
        Wanted resolved ws → (m ≤ length (successes ws)) × (length (successes ws) + k ≤ length ws)
    bounds (inl inside) = (omega arith, omega arith)
    bounds (inr (on, differ)) = absurd (false≢true on)

    wanted :
        (m ≤ length (successes ws)) × (length (successes ws) + k ≤ length ws) → Wanted resolved ws
    wanted e = inl (omega arith, omega arith)
