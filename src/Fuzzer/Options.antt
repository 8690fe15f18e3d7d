-- ===== src/Fuzzer/Options.antt =====
-- src/mishegos/mishegos.c: `main` reads its options, as getopt hands them out.
pub mod Range
use mishegos.Base.{
  ℕ, zero, suc, ◌+◌, ◌-◌, ◌*◌, ◌%◌, ◌^◌, Bool, true, false, ◌&&◌, ◌||◌, not, Option, none, some,
  ◌>>=◌, List, [], ◌∷◌, drop, ltb, leb, ◌==◌, if◌then◌else◌,
}
use mishegos.Base.Int.{ℤ, pos, negsuc}
use mishegos.Fuzzer.Process.{FilterConfig, default_filter}

-- The C library's `strtol` with base 0: white space, a sign, `0x` for base 16 or `0` for base 8, and the
-- digits; the result is held in the range of a long, and the text behind the digits is left.
abbrev pub is_space : ℕ → Bool
is_space c = c == b' ' || leb 9 c && leb c 13

-- The value of a digit or letter, and 99 for another character.
abbrev pub digit_value : ℕ → ℕ
digit_value c =
    if leb b'0' c && leb c b'9'
    then c - b'0'
    else if leb b'a' c && leb c b'z'
    then c - b'a' + 10
    else if leb b'A' c && leb c b'Z'
    then c - b'A' + 10
    else 99

unfoldable pub skip_spaces : List ℕ → List ℕ
skip_spaces [] = []
skip_spaces (c ∷ cs) = let rest = skip_spaces cs in if is_space c then rest else c ∷ cs

-- The digits in front, added to what was read before.
unfoldable pub read_digits : ℕ → ℕ → List ℕ → ℕ × List ℕ
read_digits base acc [] = (acc, [])
read_digits base acc (c ∷ cs) =
    let rest = read_digits base (acc * base + digit_value c) cs in
    if ltb (digit_value c) base then rest else (acc, c ∷ cs)

-- A text without a digit is left whole, as `none`.
unfoldable pub read_number : ℕ → List ℕ → Option (ℕ × List ℕ)
read_number base [] = none
read_number base (c ∷ cs) =
    if ltb (digit_value c) base then some (read_digits base 0 (c ∷ cs)) else none

-- `0x` counts as a prefix only in front of a digit.
unfoldable pub has_hex : List ℕ → Bool
has_hex (x ∷ d ∷ cs) = (x == b'x' || x == b'X') && ltb (digit_value d) 16
has_hex cs = false

unfoldable pub read_base_0 : List ℕ → Option (ℕ × List ℕ)
read_base_0 [] = none
read_base_0 (c ∷ cs) =
    if c == b'0'
    then if has_hex cs then read_number 16 (drop 1 cs) else read_number 8 (c ∷ cs)
    else read_number 10 (c ∷ cs)

abbrev pub clamp_long : Bool → ℕ → ℤ
clamp_long false n = pos (if ltb n (2 ^ 63) then n else 2 ^ 63 - 1)
clamp_long true zero = pos zero
clamp_long true (suc n) = negsuc (if ltb n (2 ^ 63) then n else 2 ^ 63 - 1)

abbrev pub signed : Bool → List ℕ → Option (ℕ × List ℕ) → ℤ × List ℕ
signed negative whole none = (pos 0, whole)
signed negative whole (some (n, rest)) = (clamp_long negative n, rest)

-- The sign, if there is one, and the number; `whole` is the text that strtol was given.
unfoldable pub read_signed : List ℕ → List ℕ → ℤ × List ℕ
read_signed whole [] = (pos 0, whole)
read_signed whole (c ∷ cs) =
    if c == b'-'
    then signed true whole (read_base_0 cs)
    else if c == b'+'
    then signed false whole (read_base_0 cs)
    else signed false whole (read_base_0 (c ∷ cs))

unfoldable pub strtol : List ℕ → ℤ × List ℕ
strtol text = read_signed text (skip_spaces text)

-- The assignment of a long to an int keeps its low 32 bits.
abbrev pub from_u32 : ℕ → ℤ
from_u32 n = if ltb n (2 ^ 31) then pos n else negsuc (2 ^ 32 - 1 - n)

unfoldable pub to_int : ℤ → ℤ
to_int (pos n) = from_u32 (n % 2 ^ 32)
to_int (negsuc n) = from_u32 (2 ^ 32 - 1 - n % 2 ^ 32)

-- The options that `main` has read.
pub record Options : Type 0 where
  pub thread_mode : Bool
  pub mutator_name : Option (List ℕ)
  pub filter : FilterConfig

abbrev pub default_options : Options
default_options = record { thread_mode = false; mutator_name = none; filter = default_filter }

abbrev pub at_end : FilterConfig → List ℕ → Option FilterConfig
at_end f [] = some f
at_end f (c ∷ cs) = none

-- Behind the first number `:` and a second one may follow, and nothing else.
unfoldable pub second_bound : FilterConfig → List ℕ → Option FilterConfig
second_bound f [] = some f
second_bound f (c ∷ cs) =
    let (high, next) = strtol cs in
    if c == b':' then at_end (record f { max_success = to_int high }) next else none

-- `-s`
unfoldable pub parse_range : List ℕ → FilterConfig → Option FilterConfig
parse_range text f =
    let (low, next) = strtol text in second_bound (record f { min_success = to_int low }) next

-- One option: its letter, and its argument where it has one. `none` ends the program.
unfoldable pub read_option : Options → ℕ × List ℕ → Option Options
read_option o (opt, optarg) =
    if opt == b't'
    then some (record o { thread_mode = true })
    else if opt == b'm'
    then some (record o { mutator_name = some optarg })
    else if opt == b's'
    then (do f ← parse_range optarg o.filter; some (record o { filter = f }))
    else if opt == b'n'
    then some (record o { filter = record o.filter { ndecoded_same = true } })
    else none

-- What getopt hands out, one behind the other.
unfoldable pub read_options : Options → List (ℕ × List ℕ) → Option Options
read_options o [] = some o
read_options o (opt ∷ opts) = do o' ← read_option o opt; read_options o' opts

abbrev pub only : List (List ℕ) → Option (List ℕ)
only (path ∷ []) = some path
only paths = none

-- The options, and the one positional argument that must be left behind them.
unfoldable pub read_arguments : List (ℕ × List ℕ) → List (List ℕ) → Option (Options × List ℕ)
read_arguments opts paths = do
  o ← read_options default_options opts
  path ← only paths
  some (o, path)
