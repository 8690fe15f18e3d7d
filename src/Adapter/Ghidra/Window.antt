-- ===== src/Adapter/Ghidra/Window.antt =====
-- src/worker/ghidra/ghidra.cc: the bytes that `loadFill` hands out.
use mishegos.Base.{
  ℕ, zero, suc, ◌+◌, ◌-◌, ◌%◌, ◌^◌, ◌≤◌, ◌<◌, ◌≡◌, refl, sym, ap, ◌∙◌, true, false, ◌||◌, some,
  List, [], ◌∷◌, length, take, get_or, ltb, arith, dec_lt,
}
use mishegos.Adapter.Ghidra.{LoadImage, read_at, read_int4, load_byte, load_bytes, load_fill}

-- The bytes from an address on, with zeros behind the end.
pub bytes_at : List ℕ → ℕ → ℕ → List ℕ
bytes_at bs start zero = []
bytes_at bs start (suc n) = get_or bs start 0 ∷ bytes_at bs (start + 1) n

read_at-take :
    (bs : List ℕ) (n i : ℕ) → i < n → n ≤ length bs → read_at bs i ≡ some (get_or (take n bs) i 0)
unfolding read_at
read_at-take [] n i lt le = absurd (omega arith)
read_at-take (b ∷ bs) zero i lt le = absurd (omega arith)
read_at-take (b ∷ bs) (suc n) zero lt le = refl
read_at-take (b ∷ bs) (suc n) (suc i) lt le = read_at-take bs n i (omega arith) (omega arith)

get_or-past : (bs : List ℕ) (n i : ℕ) → n ≤ i → get_or (take n bs) i 0 ≡ 0
get_or-past bs zero i le = refl
get_or-past [] (suc n) i le = refl
get_or-past (b ∷ bs) (suc n) zero le = absurd (omega arith)
get_or-past (b ∷ bs) (suc n) (suc i) le = get_or-past bs n i (omega arith)

-- The image of an instruction of at least one byte, at address 0.
pub record IsImage (image : LoadImage) : Type 0 where
  pub at_zero : image.baseaddr ≡ 0
  pub nonempty : 1 ≤ image.length
  pub small : image.length < 256
  pub whole : image.length ≤ length image.bytes

load_byte-get_or :
    (image : LoadImage) (off : ℕ)
    → IsImage image
    → load_byte image off ≡ some (get_or (take image.length image.bytes) off 0)
unfolding load_byte read_int4
load_byte-get_or image off v =
    let base = v.at_zero in
    let some_byte = v.nonempty in
    let small = v.small in
    elim (dec_lt off image.length) [
      | yes inside ↦
          let found : (ltb off image.baseaddr
                || ltb ((image.baseaddr + (2 ^ 64 + image.length - 1)) % 2 ^ 64) off)
              ≡ false =
            ground arith in
          let index : (off - image.baseaddr) % 2 ^ 32 ≡ off = omega arith in
          let positive : ltb off (2 ^ 31) ≡ true = ground arith in
          rw (found, index, positive) (read_at-take image.bytes image.length off inside v.whole)
      | no outside ↦
          let missed : (ltb off image.baseaddr
                || ltb ((image.baseaddr + (2 ^ 64 + image.length - 1)) % 2 ^ 64) off)
              ≡ true =
            ground arith in
          rw missed (ap some (sym (get_or-past image.bytes image.length off (omega arith))))
    ]

load_bytes-bytes_at :
    (image : LoadImage) (start n i : ℕ)
    → IsImage image
    → start + i + n < 2 ^ 64
    → load_bytes image start n i ≡ some (bytes_at (take image.length image.bytes) (start + i) n)
unfolding load_bytes bytes_at
load_bytes-bytes_at image start zero i v bound = refl
load_bytes-bytes_at image start (suc n) i v bound =
    let off : (start + i) % 2 ^ 64 ≡ start + i = omega arith in
    let next : start + (i + 1) ≡ start + i + 1 = omega arith in
    rw
      (
        off,
        load_byte-get_or image (start + i) v,
        load_bytes-bytes_at image start n (i + 1) v (omega arith),
        next,
      )
      refl

-- For an instruction of at least one byte, whatever sleigh asks for below the end of the address space is
-- answered with the bytes of the instruction at their addresses, and with zeros behind its last byte; no
-- read leaves the array.
pub load_fill-bytes_at :
    (image : LoadImage) (size addr : ℕ)
    → IsImage image
    → addr + size < 2 ^ 64
    → load_fill image size addr ≡ some (bytes_at (take image.length image.bytes) addr size)
unfolding load_fill
load_fill-bytes_at image size addr v bound =
    let same : addr + 0 ≡ addr = omega arith in
    load_bytes-bytes_at image addr size 0 v (omega arith)
    ∙ ap (λ (a : ℕ). some (bytes_at (take image.length image.bytes) a size)) same
