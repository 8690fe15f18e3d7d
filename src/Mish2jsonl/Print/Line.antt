-- ===== src/Mish2jsonl/Print/Line.antt =====
-- A cohort is printed, and on one line.
use mishegos.Base.{
  ℕ, zero, suc, ◌+◌, ◌/◌, ◌≤◌, ◌≡◌, refl, ap, Bool, true, false, Option, some, ◌>>=◌, List, [], ◌∷◌,
  ◌++◌, All, arith, le→leb, leb, ltb, ◌&&◌, concat, ◌==◌, if◌then◌else◌, lt→==_false, All-append,
  All-take, holds_below, holds_below_lem,
}
use mishegos.Bytes.{IsByte}
use mishegos.Slots.{InputSlot, mishegos_insn_maxlen}
use mishegos.Mish2jsonl.Hex.{hexbuf, high_digit, low_digit}
use mishegos.Mish2jsonl.Read.{WorkerOutput, CohortResults}
use mishegos.Mish2jsonl.Json.Text.{status2str}
use mishegos.Mish2jsonl.Json.{
  c_string, json_escape_string, digits_of, decimal, input_hex, worker_parts, print_worker,
  cohort_parts, print_workers, m_cohort_print_json,
}
use mishegos.Mish2jsonl.Json.Escape.{json_escape_string-IsEscaped}

-- No control character, and so no end of a line.
abbrev pub IsText : List ℕ → Type 0
IsText = All (λ c. 0x20 ≤ c)

IsText-append : (xs ys : List ℕ) → IsText xs → IsText ys → IsText (xs ++ ys)
IsText-append xs ys hx hy = All-append _ xs ys hx hy

IsText-if : (b : Bool) (xs ys : List ℕ) → IsText xs → IsText ys → IsText (if b then xs else ys)
IsText-if true xs ys hx hy = hx
IsText-if false xs ys hx hy = hy

c_string-IsText : (s junk : List ℕ) → IsText s → c_string (s ++ (0 ∷ junk)) ≡ some s
unfolding c_string
c_string-IsText [] junk h = refl
c_string-IsText (c ∷ cs) junk h =
    rw (lt→==_false 0 c (omega (arith, h.0)), c_string-IsText cs junk h.1) refl

-- Bytes with a zero behind them are a C string, up to the first zero.
first_zero :
    (bs : List ℕ)
    → All IsByte bs
    → (s : List ℕ) × (junk : List ℕ) × (bs ++ (0 ∷ []) ≡ s ++ (0 ∷ junk))
      × All (λ c. (1 ≤ c) × IsByte c) s
first_zero [] h = ([], [], refl, tt)
first_zero (zero ∷ bs) h = ([], bs ++ (0 ∷ []), refl, tt)
first_zero (suc b ∷ bs) h =
    let (s, junk, e, v) = first_zero bs h.1 in
    (suc b ∷ s, junk, ap (suc b ∷◌) e, ((omega arith, h.0), v))

digits_of-IsText : (fuel v : ℕ) → IsText (digits_of fuel v)
unfolding digits_of
digits_of-IsText zero v = tt
digits_of-IsText (suc fuel) v =
    IsText-if (ltb v 10) _ _ (omega arith, tt)
      (IsText-append (digits_of fuel (v / 10)) _ (digits_of-IsText fuel (v / 10)) (omega arith, tt))

decimal-IsText : (v : ℕ) → IsText (decimal v)
unfolding decimal
decimal-IsText v = digits_of-IsText 20 v

status2str-IsText : (status : ℕ) → IsText (status2str status)
unfolding status2str
status2str-IsText status = IsText-if (status == 0) _ _ (omega arith) (
    IsText-if (status == 1) _ _ (omega arith) (
      IsText-if (status == 2) _ _ (omega arith) (
        IsText-if (status == 3) _ _ (omega arith)
          (IsText-if (status == 4) _ _ (omega arith) (omega arith)))))

-- What the reader makes of a worker whose path has no control character.
pub record IsShown (o : WorkerOutput) : Type 0 where
  pub path : List ℕ
  pub path_text : IsText path
  pub path_ends : o.workerso.string ≡ path ++ (0 ∷ [])
  pub text : List ℕ
  pub text_bytes : All IsByte text
  pub text_ends : o.result.string ≡ text ++ (0 ∷ [])

-- A result that is a text.
abbrev HasText : Option (List ℕ) → Type 0
HasText o = (t : List ℕ) × (o ≡ some t) × IsText t

HasText-some : (t : List ℕ) → IsText t → HasText (some t)
HasText-some t h = (t, refl, h)

HasText-bind :
    (o : Option (List ℕ)) (f : List ℕ → Option (List ℕ))
    → HasText o
    → ((t : List ℕ) → IsText t → HasText (f t))
    → HasText (o >>= f)
HasText-bind o f h k = let (t, e, v) = h in let (t', e', v') = k t v in (t', rw e e', v')

IsText-concat : (ts : List (List ℕ)) → All IsText ts → IsText (concat ts)
IsText-concat [] h = tt
IsText-concat (t ∷ ts) h = IsText-append t (concat ts) h.0 (IsText-concat ts h.1)

json_escape_string-IsText :
    (bs : List ℕ) → All IsByte bs → HasText (json_escape_string (bs ++ (0 ∷ [])))
json_escape_string-IsText bs h =
    let (s, junk, e, v) = first_zero bs h in
    let (t, e', w) = json_escape_string-IsEscaped s junk v in (t, rw e e', w.printable)

print_worker-IsText : (o : WorkerOutput) → IsShown o → HasText (print_worker o)
unfolding print_worker
print_worker-IsText o v =
    let escapes : HasText (json_escape_string o.result.string) =
      rw v.text_ends (json_escape_string-IsText v.text v.text_bytes) in
    let copies : HasText (c_string o.workerso.string) =
      rw v.path_ends (v.path, c_string-IsText v.path [] v.path_text, v.path_text) in
    HasText-bind _ _ escapes λ escaped_result he. HasText-bind _ _ copies λ worker_so hp.
      let parts : All IsText (worker_parts o worker_so escaped_result) = (
        omega arith,
        (
          decimal-IsText o.status,
          (
            omega arith,
            (
              status2str-IsText o.status,
              (
                omega arith,
                (
                  decimal-IsText o.ndecoded,
                  (
                    omega arith,
                    (
                      decimal-IsText o.workerno,
                      (
                        omega arith,
                        (
                          hp,
                          (
                            omega arith,
                            (decimal-IsText o.result.len, (omega arith, (he, (omega arith, tt)))),
                          ),
                        ),
                      ),
                    ),
                  ),
                ),
              ),
            ),
          ),
        ),
      ) in
      HasText-some _ (IsText-concat (worker_parts o worker_so escaped_result) parts)

print_workers-IsText :
    (i : ℕ) (os : List WorkerOutput) → All IsShown os → HasText (print_workers i os)
unfolding print_workers
print_workers-IsText i [] v = HasText-some [] tt
print_workers-IsText i (o ∷ os) v = HasText-bind _ _ (print_worker-IsText o v.0) λ text ht.
    HasText-bind _ _ (print_workers-IsText (i + 1) os v.1) λ rest hr. HasText-some _ (
      IsText-append _ (text ++ rest) (IsText-if (i == 0) [] (b',' ∷ []) tt (omega arith, tt))
        (IsText-append text rest ht hr))

digit_table : holds_below 256 (λ b. leb 0x20 (high_digit b) && leb 0x20 (low_digit b)) ≡ true
unfolding holds_below high_digit low_digit
digit_table = refl

hexbuf-IsText : (bs : List ℕ) → All IsByte bs → IsText (hexbuf bs)
unfolding hexbuf
hexbuf-IsText [] h = tt
hexbuf-IsText (b ∷ bs) h =
    let t = holds_below_lem 256 _ b digit_table h.0 in
    (ground arith, (ground arith, hexbuf-IsText bs h.1))

-- The parts of a cohort that the printer relies on.
pub record IsPrintable (r : CohortResults) : Type 0 where
  pub short : r.input.len ≤ mishegos_insn_maxlen
  pub bytes : All IsByte r.input.raw_insn
  pub shown : All IsShown r.outputs

input_hex-IsText :
    (input : InputSlot)
    → input.len ≤ mishegos_insn_maxlen
    → All IsByte input.raw_insn
    → HasText (input_hex input)
unfolding input_hex
input_hex-IsText input short bytes =
    rw (le→leb input.len mishegos_insn_maxlen short)
      (HasText-some _ (hexbuf-IsText _ (All-take _ input.len input.raw_insn bytes)))

-- A cohort whose input fits its array and whose worker paths have no control character is printed
-- inside all buffers, as one line: no control character gets into it, whatever the workers' texts are.
pub m_cohort_print_json-IsText :
    (r : CohortResults)
    → IsPrintable r
    → (line : List ℕ) × (m_cohort_print_json r ≡ some line) × IsText line
unfolding m_cohort_print_json
m_cohort_print_json-IsText r v =
    HasText-bind _ _ (input_hex-IsText r.input v.short v.bytes) λ hex' hh.
      HasText-bind _ _ (print_workers-IsText 0 r.outputs v.shown) λ outputs ho.
        let parts : All IsText (cohort_parts r hex' outputs) = (
          omega arith,
          (decimal-IsText r.nworkers, (omega arith, (hh, (omega arith, (ho, (omega arith, tt)))))),
        ) in
        HasText-some _ (IsText-concat (cohort_parts r hex' outputs) parts)
