-- ===== src/Fuzzer/Options/Range.antt =====
-- src/mishegos/mishegos.c: the option -s with decimal numbers.
use mishegos.Base.{
  ℕ, zero, suc, ◌+◌, ◌*◌, ◌/◌, ◌%◌, ◌^◌, ◌≤◌, ◌<◌, ◌≡◌, refl, sym, ap, ◌∙◌, true, false, some, List,
  [], ◌∷◌, ◌++◌, All, All-append, append-nil, ltb, ◌==◌, arith, dec_lt,
}
use native.Mathlib.Numerals.{unary_clauses}
use mishegos.Base.Int.{ℤ, pos, negsuc, pos_part, neg_part}
use mishegos.Fuzzer.Process.{FilterConfig}
use mishegos.Fuzzer.Options.{
  is_space, digit_value, skip_spaces, read_digits, read_number, has_hex, read_base_0, signed,
  clamp_long, read_signed, strtol, to_int, second_bound, parse_range,
}
use mishegos.Mish2jsonl.Json.{digits_of, decimal}

IsDigit : ℕ → Type 0
IsDigit c = (b'0' ≤ c) × (c ≤ b'9')

-- What digits are worth behind `acc`.
value : ℕ → List ℕ → ℕ
value acc [] = acc
value acc (c ∷ cs) = value (acc * 10 + digit_value c) cs

value-append : (acc : ℕ) (xs ys : List ℕ) → value acc (xs ++ ys) ≡ value (value acc xs) ys
unfolding value
value-append acc [] ys = refl
value-append acc (x ∷ xs) ys = value-append (acc * 10 + digit_value x) xs ys

-- A text that goes on without a digit.
Stops : List ℕ → Type 0
Stops [] = Unit
Stops (c ∷ cs) = (ltb (digit_value c) 10 ≡ false) × (c ≡ b':')

read_digits-value :
    (acc : ℕ) (ds rest : List ℕ)
    → All IsDigit ds
    → Stops rest
    → read_digits 10 acc (ds ++ rest) ≡ (value acc ds, rest)
unfolding read_digits value IsDigit Stops
read_digits-value acc [] [] h stops = refl
read_digits-value acc [] (c ∷ rest) h stops = rw stops.0 refl
read_digits-value acc (d ∷ ds) rest h stops =
    let small : ltb (digit_value d) 10 ≡ true = ground (arith, h.0) in
    rw small (read_digits-value (acc * 10 + digit_value d) ds rest h.1 stops)

-- The text of a number: decimal digits that are worth the number, the first of them not 0.
record IsNumeral (v : ℕ) (ds : List ℕ) : Type 0 where
  digits : All IsDigit ds
  worth : value 0 ds ≡ v
  first : ℕ
  others : List ℕ
  starts : ds ≡ first ∷ others
  leading : (b'1' ≤ first) × (first ≤ b'9')

digits_of-IsNumeral : (fuel v : ℕ) → 0 < v → v < 10 ^ fuel → IsNumeral v (digits_of fuel v)
unfolding digits_of IsDigit value
digits_of-IsNumeral zero v some_value h = absurd (omega arith)
digits_of-IsNumeral (suc fuel) v some_value h = elim (dec_lt v 10) [
  | yes small ↦
      let alone : ltb v 10 ≡ true = ground arith in
      rw alone (record {
        digits = ((omega arith, omega arith), tt);
        worth = ground arith;
        first = 48 + v;
        others = [];
        starts = refl;
        leading = (omega arith, omega arith);
      })
  | no large ↦
      let more : ltb v 10 ≡ false = ground arith in
      let h' : v < 10 ^ fuel * 10 = simp unary_clauses at h in
      let front = digits_of-IsNumeral fuel (v / 10) (omega arith) (omega arith) in
      rw more (record {
        digits =
            All-append IsDigit (digits_of fuel (v / 10)) _ front.digits
              ((omega arith, omega arith), tt);
        worth = value-append 0 (digits_of fuel (v / 10)) _ ∙ rw front.worth (ground arith);
        first = front.first;
        others = front.others ++ (48 + v % 10) ∷ [];
        starts = ap (λ (l : List ℕ). l ++ (48 + v % 10) ∷ []) front.starts;
        leading = front.leading;
      })
]

decimal-IsNumeral : (v : ℕ) → 0 < v → v < 10 ^ 20 → IsNumeral v (decimal v)
unfolding decimal
decimal-IsNumeral = digits_of-IsNumeral 20

-- A numeral is read back, as far as its digits go.
read_base_0-IsNumeral :
    (v : ℕ) (ds rest : List ℕ)
    → IsNumeral v ds
    → Stops rest
    → read_base_0 (ds ++ rest) ≡ some (v, rest)
unfolding read_base_0 read_number
read_base_0-IsNumeral v ds rest n stops =
    let digits : All IsDigit (n.first ∷ n.others) = rw n.starts at n.digits in
    let worth : value 0 (n.first ∷ n.others) ≡ v = rw n.starts at n.worth in
    let leading = n.leading in
    let nonzero : (n.first == b'0') ≡ false = ground arith in
    let small : ltb (digit_value n.first) 10 ≡ true = ground arith in
    let read = read_digits-value 0 (n.first ∷ n.others) rest digits stops in
    rw (n.starts, nonzero, small, read, worth) refl

-- An int in decimal, as printf prints it.
pub int_text : ℤ → List ℕ
int_text (pos zero) = b'0' ∷ []
int_text (pos (suc n)) = decimal (suc n)
int_text (negsuc n) = b'-' ∷ decimal (suc n)

abbrev pub IsInt : ℤ → Type 0
IsInt z = (pos_part z < 2 ^ 31) × (neg_part z ≤ 2 ^ 31)

-- A text that begins with a digit has neither space nor sign.
strtol-digit :
    (c : ℕ) (cs : List ℕ)
    → IsDigit c
    → strtol (c ∷ cs) ≡ signed false (c ∷ cs) (read_base_0 (c ∷ cs))
unfolding strtol skip_spaces read_signed IsDigit
strtol-digit c cs h =
    let no_space : is_space c ≡ false = ground arith in
    let no_minus : (c == b'-') ≡ false = ground arith in
    let no_plus : (c == b'+') ≡ false = ground arith in rw (no_space, no_minus, no_plus) refl

strtol-numeral :
    (v : ℕ) (ds rest : List ℕ)
    → IsNumeral v ds
    → Stops rest
    → strtol (ds ++ rest) ≡ (clamp_long false v, rest)
strtol-numeral v ds rest n stops =
    let leading = n.leading in
    let read = read_base_0-IsNumeral v ds rest n stops in
    let starts : ds ++ rest ≡ n.first ∷ n.others ++ rest = ap (◌++ rest) n.starts in
    ap strtol starts
    ∙ strtol-digit n.first (n.others ++ rest) (unfold IsDigit in (omega arith, omega arith))
    ∙ ap (signed false (n.first ∷ n.others ++ rest)) (ap read_base_0 (sym starts) ∙ read)

strtol-zero : (rest : List ℕ) → strtol (b'0' ∷ b':' ∷ rest) ≡ (pos 0, b':' ∷ rest)
unfolding read_base_0 read_number read_digits has_hex
strtol-zero [] = strtol-digit b'0' _ (unfold IsDigit in (omega arith, omega arith)) ∙ refl
strtol-zero (d ∷ rest) = strtol-digit b'0' _ (unfold IsDigit in (omega arith, omega arith)) ∙ refl

strtol-int_text :
    (z : ℤ) (rest : List ℕ) → IsInt z → Stops rest → strtol (int_text z ++ rest) ≡ (z, rest)
unfolding int_text Stops
strtol-int_text (pos zero) [] h stops =
    strtol-digit b'0' [] (unfold IsDigit in (omega arith, omega arith))
    ∙ unfold read_base_0 read_number read_digits has_hex in refl
strtol-int_text (pos zero) (c ∷ rest) h stops = rw stops.1 (strtol-zero rest)
strtol-int_text (pos (suc n)) rest h stops =
    let small : ltb (suc n) (2 ^ 63) ≡ true = ground arith in
    strtol-numeral (suc n) (decimal (suc n)) rest
      (decimal-IsNumeral (suc n) (omega arith) (omega arith)) stops
    ∙ rw small refl
strtol-int_text (negsuc n) rest h stops =
    let small : ltb n (2 ^ 63) ≡ true = ground arith in
    let read =
      read_base_0-IsNumeral (suc n) (decimal (suc n)) rest
        (decimal-IsNumeral (suc n) (omega arith) (omega arith)) stops in
    unfold strtol skip_spaces read_signed in rw (read, small) refl

to_int-IsInt : (z : ℤ) → IsInt z → to_int z ≡ z
unfolding to_int
to_int-IsInt (pos n) h = ground arith
to_int-IsInt (negsuc n) h = ground arith

-- `-s` with one or two ints in decimal sets the bounds to these ints, negative ones included, and leaves
-- the upper bound as it was if there is only one.
pub parse_range-int_text :
    (low high : ℤ) (f : FilterConfig)
    → IsInt low
    → IsInt high
    → (parse_range (int_text low ++ b':' ∷ int_text high) f
        ≡ some (record f { min_success = low; max_success = high }))
      × (parse_range (int_text low) f ≡ some (record f { min_success = low }))
unfolding parse_range second_bound
parse_range-int_text low high f h h' =
    let alone : strtol (int_text low) ≡ (low, []) =
      ap strtol (sym (append-nil (int_text low))) ∙ strtol-int_text low [] h (unfold Stops in tt) in
    let last : strtol (int_text high) ≡ (high, []) =
      ap strtol (sym (append-nil (int_text high)))
      ∙ strtol-int_text high [] h' (unfold Stops in tt) in
    let first = strtol-int_text low (b':' ∷ int_text high) h (unfold Stops in (refl, refl)) in
    (
      rw (first, last, to_int-IsInt low h, to_int-IsInt high h') refl,
      rw (alone, to_int-IsInt low h) refl,
    )
