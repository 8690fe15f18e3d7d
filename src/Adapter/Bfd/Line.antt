-- ===== src/Adapter/Bfd/Line.antt =====
-- src/worker/bfd/bfd.c: the pieces that libopcodes prints, as one line.
use mishegos.Base.{
  ℕ, zero, suc, ◌+◌, ◌-◌, ◌≤◌, ◌<◌, ◌≡◌, refl, sym, ap, ap₂, ◌∙◌, true, ◌||◌, some, List, [], ◌∷◌,
  ◌++◌, length, take, drop, replicate, leb, ltb, ◌==◌, if◌then◌else◌, arith, append-nil,
  append_assoc, length-append, drop_append, take_append, le→leb, lt→ltb,
}
use mishegos.Slots.{OutputSlot, mishegos_dec_maxlen, s_success, s_failure}
use mishegos.Adapter.{snprintf, to_u16}
use mishegos.Adapter.Bfd.{dis_vfprintf, print_pieces, strstr, bad, bfd_try_decode}

abbrev pub pieces : List (List ℕ) → List ℕ
pieces [] = []
pieces (text ∷ texts) = text ++ pieces texts

take_all : (n : ℕ) (xs : List ℕ) → length xs ≤ n → take n xs ≡ xs
take_all zero [] le = refl
take_all zero (x ∷ xs) le = absurd (omega arith)
take_all (suc n) [] le = refl
take_all (suc n) (x ∷ xs) le = ap (x ∷◌) (take_all n xs (omega arith))

abbrev pub zeros : ℕ → List ℕ
zeros n = replicate n 0

drop-zeros : (n m : ℕ) → drop n (zeros (n + m)) ≡ zeros m
drop-zeros zero m = ap zeros (omega arith)
drop-zeros (suc n) m =
    let one : suc n + m ≡ suc (n + m) = omega arith in
    ap (λ (k : ℕ). drop (suc n) (zeros k)) one ∙ drop-zeros n m

-- The memory of a text in the zeroed buffer.
abbrev pub memory : List ℕ → List ℕ
memory text = text ++ zeros (mishegos_dec_maxlen - length text)

-- A text that fits is printed behind zeros.
snprintf-fits :
    (m : ℕ) (text : List ℕ)
    → length text < m
    → (snprintf (zeros m) m text).1 ≡ text ++ zeros (m - length text)
unfolding snprintf
snprintf-fits zero text lt = absurd (omega arith)
snprintf-fits (suc m) text lt =
    let k = m - length text in
    let cut = take_all m text (omega arith) in
    let size = length-append text (0 ∷ []) in
    let total : suc m ≡ length text + 1 + k = omega arith in
    let dropped : drop (length text + 1) (zeros (suc m)) ≡ zeros k =
      ap (λ (j : ℕ). drop (length text + 1) (zeros j)) total ∙ drop-zeros (length text + 1) k in
    ap (λ (t : List ℕ). (t ++ 0 ∷ []) ++ drop (length (t ++ 0 ∷ [])) (zeros (suc m))) cut
    ∙ ap (λ (j : ℕ). (text ++ 0 ∷ []) ++ drop j (zeros (suc m))) size
    ∙ ap ((text ++ 0 ∷ []) ++◌) dropped
    ∙ append_assoc text (0 ∷ []) (zeros k)
    ∙ ap (λ (j : ℕ). text ++ zeros j) (let more : suc k ≡ suc m - length text = omega arith in more)

counted : (m : List ℕ) (size : ℕ) (text : List ℕ) → (snprintf m size text).0 ≡ length text
unfolding snprintf
counted m zero text = refl
counted m (suc size) text = refl

module _ (text : List ℕ) (before : List ℕ)
    (fits : length before + length text < mishegos_dec_maxlen) where
  -- Behind what is there, the next text goes.
  printed :
      take (length before) (memory before)
        ++ (snprintf
            (drop (length before) (memory before))
            (mishegos_dec_maxlen - length before)
            text).1
      ≡ memory (before ++ text)
  printed =
      let room = mishegos_dec_maxlen - length before in
      let both = length-append before text in
      let left : room - length text ≡ mishegos_dec_maxlen - length (before ++ text) =
        omega (arith, both) in
      ap₂ (λ (a b : List ℕ). a ++ b) (take_append before (zeros room))
        (ap (λ (z : List ℕ). (snprintf z room text).1) (drop_append before (zeros room))
          ∙ snprintf-fits room text (omega arith))
      ∙ sym (append_assoc before text (zeros (room - length text)))
      ∙ ap (λ (j : ℕ). (before ++ text) ++ zeros j) left

  -- One piece that fits.
  dis_vfprintf_lem :
      dis_vfprintf (record { buf = memory before; off = length before }) text
      ≡ some (record { buf = memory (before ++ text); off = length (before ++ text) })
  unfolding dis_vfprintf
  dis_vfprintf_lem =
      let inside : ltb (length before) mishegos_dec_maxlen ≡ true = lt→ltb _ _ (omega arith) in
      rw inside (
        ap₂ (λ (b : List ℕ) (o : ℕ). some (record { buf = b; off = o })) printed
          (ap (length before +◌) (counted _ _ text) ∙ sym (length-append before text)))

print_pieces_lem :
    (texts : List (List ℕ)) (before : List ℕ)
    → length before + length (pieces texts) < mishegos_dec_maxlen
    → print_pieces texts (record { buf = memory before; off = length before })
      ≡ some
          (record { buf = memory (before ++ pieces texts); off = length (before ++ pieces texts) })
unfolding print_pieces
print_pieces_lem [] before fits =
    ap (λ (t : List ℕ). some (record { buf = memory t; off = length t })) (sym (append-nil before))
print_pieces_lem (text ∷ texts) before fits =
    let both = length-append text (pieces texts) in
    let front = length-append before text in
    rw (dis_vfprintf_lem text before (omega (arith, both))) (
      print_pieces_lem texts (before ++ text) (omega (arith, both, front))
      ∙ ap (λ (t : List ℕ). some (record { buf = memory t; off = length t }))
          (append_assoc before text (pieces texts)))

-- The line that the adapter makes of the pieces.
abbrev pub line_of : List (List ℕ) → List ℕ
line_of texts = pieces texts ++ (b'\n' ∷ [])

-- If the pieces that libopcodes prints fit into the buffer with a newline and a zero, the bfd adapter
-- fails no assertion: the text of the slot is the pieces one behind the other with a newline, and
-- nothing else of the slot's memory is written; the status is a failure exactly if the number of bytes
-- is 0 or the text has "(bad)" in it.
pub bfd_try_decode-line :
    (disasm : List ℕ → ℕ → List (List ℕ) × ℕ) (result : OutputSlot) (raw : List ℕ) (size : ℕ)
    (texts : List (List ℕ)) (pc : ℕ)
    → disasm raw size ≡ (texts, pc)
    → length (line_of texts) < mishegos_dec_maxlen
    → length result.result ≡ mishegos_dec_maxlen
    → bfd_try_decode disasm result raw size
      ≡ some (record {
        status = if (pc == 0) || strstr bad (memory (line_of texts)) then s_failure else s_success;
        ndecoded = to_u16 pc;
        len = length (line_of texts);
        result = line_of texts ++ drop (length (line_of texts)) result.result;
      })
unfolding bfd_try_decode
bfd_try_decode-line disasm result raw size texts pc e fits full =
    let ends = length-append (pieces texts) (b'\n' ∷ []) in
    let all = print_pieces_lem texts [] (omega (arith, ends)) in
    let last = printed (b'\n' ∷ []) (pieces texts) (omega (arith, ends)) in
    let room : leb (length (pieces texts) + 1) (length result.result) ≡ true =
      le→leb _ _ (omega (arith, ends)) in
    let n = length (line_of texts) in
    let status =
      if (pc == 0) || strstr bad (memory (line_of texts)) then s_failure else s_success in
    let short : to_u16 n ≡ n = omega (arith, fits) in
    rw (e, all, last, room)
      (ap
          (λ (k : ℕ). some (record {
            status = status;
            ndecoded = to_u16 pc;
            len = to_u16 k;
            result = take k (memory (line_of texts)) ++ drop k result.result;
          }))
          (sym ends)
        ∙ ap₂
            (λ (k : ℕ) (t : List ℕ). some (record {
              status = status;
              ndecoded = to_u16 pc;
              len = k;
              result = t ++ drop n result.result;
            }))
            short (take_append (line_of texts) (zeros (mishegos_dec_maxlen - n))))
