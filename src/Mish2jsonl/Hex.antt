-- ===== src/Mish2jsonl/Hex.antt =====
-- src/mish2jsonl/mish2jsonl.c: the input of a cohort, printed in hex digits.
use mishegos.Base.{ℕ, ◌/◌, ◌%◌, List, [], ◌∷◌, get_or}

-- "0123456789abcdef"
abbrev pub hex_digits : List ℕ
hex_digits =
    b'0' ∷ b'1' ∷ b'2' ∷ b'3' ∷ b'4' ∷ b'5' ∷ b'6' ∷ b'7' ∷ b'8' ∷ b'9' ∷ b'a' ∷ b'b' ∷ b'c' ∷ b'd'
    ∷ b'e' ∷ b'f' ∷ []

unfoldable pub high_digit : ℕ → ℕ
high_digit b = get_or hex_digits (b / 0x10) 0

unfoldable pub low_digit : ℕ → ℕ
low_digit b = get_or hex_digits (b % 0x10) 0

-- The loop that fills `hexbuf`, over the bytes of the input.
unfoldable pub hexbuf : List ℕ → List ℕ
unfolding high_digit low_digit
hexbuf [] = []
hexbuf (b ∷ bs) = high_digit b ∷ low_digit b ∷ hexbuf bs
