-- ===== src/Mish2jsonl/Json/Escape.antt =====
-- A JSON reader gets back what `json_escape_string` escaped.
use mishegos.Base.{
  ℕ, ◌+◌, ◌-◌, ◌*◌, ◌≤◌, ◌≡◌, refl, sym, ap, ◌∙◌, subst, Bool, true, false, ◌&&◌, ◌||◌, Option,
  none, some, List, [], ◌∷◌, ◌++◌, length, All, arith, leb, ltb, ◌==◌, if◌then◌else◌, holds_below,
  holds_below_lem, length-append, append_assoc, ==_iff, lt→==_false, All-append,
}
use mishegos.Bytes.{IsByte}
use mishegos.Mish2jsonl.Json.{escape_char, json_escape_string}

-- A reader of the characters of a JSON string (RFC 8259, section 7), as an automaton on bytes: between
-- characters, behind a backslash, and behind `k` hex digits with the value `v`.
pub data LexState : Type 0 where
  plain : LexState
  escaped : LexState
  unicode : ℕ → ℕ → LexState

-- What one byte does: it ends the string, is refused, completes a character, or is passed over.
data LexStep : Type 0 where
  close : LexStep
  refuse : LexStep
  emit : ℕ → LexStep
  skip : LexState → LexStep

hex_value : ℕ → Option ℕ
hex_value b =
    if leb b'0' b && leb b b'9'
    then some (b - b'0')
    else if leb b'a' b && leb b b'f'
    then some (b - b'a' + 10)
    else if leb b'A' b && leb b b'F'
    then some (b - b'A' + 10)
    else none

hex_step : ℕ → ℕ → Option ℕ → LexStep
hex_step k v none = refuse
hex_step k v (some d) =
    if k == 3 then emit (v * 16 + d) else skip (LexState.unicode (k + 1) (v * 16 + d))

lex_step : LexState → ℕ → LexStep
lex_step LexState.plain b =
    if b == b'"'
    then close
    else if b == b'\\'
    then skip LexState.escaped
    else if ltb b 0x20
    then refuse
    else emit b
lex_step LexState.escaped b =
    if b == b'u'
    then skip (LexState.unicode 0 0)
    else if b == b'n'
    then emit 0x0a
    else if b == b'r'
    then emit 0x0d
    else if b == b't'
    then emit 0x09
    else if b == b'b'
    then emit 0x08
    else if b == b'f'
    then emit 0x0c
    else if b == b'"' || b == b'\\' || b == b'/'
    then emit b
    else refuse
lex_step (LexState.unicode k v) b = hex_step k v (hex_value b)

abbrev prepend : {B : Type 0} → List ℕ → Option (List ℕ × B) → Option (List ℕ × B)
prepend out none = none
prepend out (some r) = some (out ++ r.0, r.1)

abbrev follow : (LexState → Option (List ℕ × List ℕ)) → List ℕ → LexStep → Option (List ℕ × List ℕ)
follow go bs LexStep.close = some ([], bs)
follow go bs LexStep.refuse = none
follow go bs (LexStep.emit c) = prepend (c ∷ []) (go LexState.plain)
follow go bs (LexStep.skip s) = go s

-- The characters up to the closing quote, and the bytes behind it.
pub lex : LexState → List ℕ → Option (List ℕ × List ℕ)
lex s [] = none
lex s (b ∷ bs) = follow (λ s'. lex s' bs) bs (lex_step s b)

-- The same automaton where the string does not end: the characters read, and the state at the end.
abbrev run_follow : (LexState → Option (List ℕ × LexState)) → LexStep → Option (List ℕ × LexState)
run_follow go LexStep.close = none
run_follow go LexStep.refuse = none
run_follow go (LexStep.emit c) = prepend (c ∷ []) (go LexState.plain)
run_follow go (LexStep.skip s) = go s

unfoldable run : LexState → List ℕ → Option (List ℕ × LexState)
run s [] = some ([], s)
run s (b ∷ bs) = run_follow (λ s'. run s' bs) (lex_step s b)

prepend-prepend :
    {B : Type 0} (xs ys : List ℕ) (o : Option (List ℕ × B))
    → prepend xs (prepend ys o) ≡ prepend (xs ++ ys) o
prepend-prepend xs ys none = refl
prepend-prepend xs ys (some r) = ap (λ t. some (t, r.1)) (sym (append_assoc xs ys r.0))

prepend-nil : {B : Type 0} (o : Option (List ℕ × B)) → prepend [] o ≡ o
prepend-nil none = refl
prepend-nil (some r) = refl

-- A run that ends without a close goes on in the reader.
unfoldable Continues : (List ℕ → Option (List ℕ × List ℕ)) → Option (List ℕ × LexState) → Type 0
Continues f none = Unit
Continues f (some (out, s')) = (rest : List ℕ) → f rest ≡ prepend out (lex s' rest)

prepend-Continues :
    (c : ℕ) (f : List ℕ → Option (List ℕ × List ℕ)) (o : Option (List ℕ × LexState))
    → Continues f o
    → Continues (λ rest. prepend (c ∷ []) (f rest)) (prepend (c ∷ []) o)
unfolding Continues
prepend-Continues c f none h = tt
prepend-Continues c f (some (out, s')) h =
    λ rest. ap (prepend (c ∷ [])) (h rest) ∙ prepend-prepend (c ∷ []) out (lex s' rest)

follow-Continues :
    (step : LexStep) (bs : List ℕ)
    → ((t : LexState) → Continues (λ rest. lex t (bs ++ rest)) (run t bs))
    → Continues
        (λ rest. follow (λ t. lex t (bs ++ rest)) (bs ++ rest) step)
        (run_follow (λ t. run t bs) step)
unfolding Continues
follow-Continues LexStep.close bs ih = tt
follow-Continues LexStep.refuse bs ih = tt
follow-Continues (LexStep.emit c) bs ih = prepend-Continues c _ _ (ih LexState.plain)
follow-Continues (LexStep.skip s) bs ih = ih s

run-Continues : (xs : List ℕ) (s : LexState) → Continues (λ rest. lex s (xs ++ rest)) (run s xs)
unfolding run lex Continues
run-Continues [] s = λ rest. sym (prepend-nil (lex s rest))
run-Continues (b ∷ bs) s = follow-Continues (lex_step s b) bs (λ t. run-Continues bs t)

abbrev is_char : ℕ → Option (List ℕ × LexState) → Bool
is_char c (some (b ∷ [], LexState.plain)) = b == c
is_char c o = false

is_char_lem :
    (c : ℕ) (o : Option (List ℕ × LexState))
    → is_char c o ≡ true
    → o ≡ some (c ∷ [], LexState.plain)
is_char_lem c none h = ground arith
is_char_lem c (some ([], s)) h = ground arith
is_char_lem c (some (b ∷ [], LexState.plain)) h =
    ap (λ x. some (x ∷ [], LexState.plain)) ((==_iff b c).0 h)
is_char_lem c (some (b ∷ [], LexState.escaped)) h = ground arith
is_char_lem c (some (b ∷ [], LexState.unicode k v)) h = ground arith
is_char_lem c (some (b ∷ b' ∷ bs, s)) h = ground arith

escape_table : holds_below 256 (λ c. is_char c (run LexState.plain (escape_char c))) ≡ true
unfolding holds_below escape_char run lex_step hex_step hex_value
escape_table = refl

abbrev all_printable : List ℕ → Bool
all_printable [] = true
all_printable (c ∷ cs) = leb 0x20 c && all_printable cs

all_printable_lem : (cs : List ℕ) → all_printable cs ≡ true → All (λ c. 0x20 ≤ c) cs
all_printable_lem [] h = tt
all_printable_lem (c ∷ cs) h = ground (arith, all_printable_lem cs)

escape_length_table :
    holds_below 256 (λ c. leb (length (escape_char c)) 6 && all_printable (escape_char c)) ≡ true
unfolding holds_below escape_char
escape_length_table = refl

-- Each character's escape reads as that character.
lex-escape_char :
    (c : ℕ) (rest : List ℕ)
    → IsByte c
    → lex LexState.plain (escape_char c ++ rest) ≡ prepend (c ∷ []) (lex LexState.plain rest)
unfolding Continues
lex-escape_char c rest h =
    let e = is_char_lem c _ (holds_below_lem 256 _ c escape_table h) in
    let go = run-Continues (escape_char c) LexState.plain in subst (Continues _) e go rest

escape_char-small :
    (c : ℕ) → IsByte c → (length (escape_char c) ≤ 6) × All (λ b. 0x20 ≤ b) (escape_char c)
escape_char-small c h =
    let t = holds_below_lem 256 _ c escape_length_table h in
    let p : all_printable (escape_char c) ≡ true = ground arith in
    (ground arith, all_printable_lem _ p)

-- The text `t` stands for the string `s`: a reader gets `s` back from it up to the closing quote; it
-- has no control character; and it fits the memory that the code asks for.
pub record IsEscaped (s t : List ℕ) : Type 0 where
  pub reads : (rest : List ℕ) → lex LexState.plain (t ++ (b'"' ∷ rest)) ≡ some (s, rest)
  pub printable : All (λ c. 0x20 ≤ c) t
  pub fits : length t + 1 ≤ length s * 6 + 1

-- On a C string of bytes, whatever follows its zero byte, the escaping returns a text that a JSON
-- reader reads as that string, without control characters and no longer than the memory for it.
pub json_escape_string-IsEscaped :
    (s junk : List ℕ)
    → All (λ c. (1 ≤ c) × IsByte c) s
    → (t : List ℕ) × (json_escape_string (s ++ (0 ∷ junk)) ≡ some t) × IsEscaped s t
unfolding json_escape_string lex lex_step
json_escape_string-IsEscaped [] junk h =
    ([], refl, record { reads = λ rest. refl; printable = tt; fits = omega arith })
json_escape_string-IsEscaped (c ∷ cs) junk h =
    let (t, e, v) = json_escape_string-IsEscaped cs junk h.1 in
    let small = escape_char-small c h.0.1 in
    (
      escape_char c ++ t,
      rw (lt→==_false 0 c (omega (arith, h.0.0)), e) refl,
      record {
        reads = λ rest.
            rw
              (
                append_assoc (escape_char c) t (b'"' ∷ rest),
                lex-escape_char c (t ++ (b'"' ∷ rest)) h.0.1,
                v.reads rest,
              )
              refl;
        printable = All-append _ (escape_char c) t small.1 v.printable;
        fits = omega (arith, length-append (escape_char c) t, small.0, v.fits);
      },
    )
