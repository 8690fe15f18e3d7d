-- ===== src/Xoroshiro/Cycle.antt =====
-- The generator's step loses nothing of its state.
use Prim.Native.Nat.{bit_xor}
use mishegos.Base.{ℕ, ◌*◌, ◌^◌, ◌<◌, ◌≡◌, ◌≢◌, sym, ap, ◌∙◌, arith}
use mishegos.Bits.{
  bit_xor-lt, bit_xor_cancel, bit_xor_cancel_right, bit_xor_trade, bit_xor-eq_zero, bit_xor-shl,
  bit_xor-mod,
}
use mishegos.Xoroshiro.{RngState, u64, xoroshiro256_rotl, next_state}
use mishegos.Xoroshiro.Laws.{IsValid, rotl_45_injective}

abbrev xor_lt : (a b : ℕ) → a < 2 ^ 64 → b < 2 ^ 64 → bit_xor a b < 2 ^ 64
xor_lt a b ha hb = bit_xor-lt 64 a b ha hb

-- A word is known from its exclusive or with itself shifted by 17 bits.
xor_shl_injective :
    (x y a b : ℕ)
    → x < 2 ^ 64
    → y < 2 ^ 64
    → a < 2 ^ 64
    → b < 2 ^ 64
    → bit_xor x a ≡ bit_xor y b
    → bit_xor a (u64 (x * 2 ^ 17)) ≡ bit_xor b (u64 (y * 2 ^ 17))
    → x ≡ y
xor_shl_injective x y a b hx hy ha hb e e' =
    let z = bit_xor x y in
    let z_lt : z < 2 ^ 64 = xor_lt x y hx hy in
    let shifted : bit_xor (u64 (x * 2 ^ 17)) (u64 (y * 2 ^ 17)) ≡ u64 (z * 2 ^ 17) =
      bit_xor-mod 64 (x * 2 ^ 17) (y * 2 ^ 17) ∙ ap u64 (bit_xor-shl 17 x y) in
    let first : z ≡ bit_xor a b = bit_xor_trade 64 x a y b hx ha hy hb e in
    let second : bit_xor a b ≡ bit_xor (u64 (x * 2 ^ 17)) (u64 (y * 2 ^ 17)) =
      bit_xor_trade 64 a (u64 (x * 2 ^ 17)) b (u64 (y * 2 ^ 17)) ha (omega arith) hb (omega arith)
        e' in
    let fixed : z ≡ u64 (z * 2 ^ 17) = first ∙ second ∙ shifted in
    bit_xor-eq_zero 64 x y hx hy (omega arith)

xor_cancel_right :
    (a b c d : ℕ) → a < 2 ^ 64 → b < 2 ^ 64 → c ≡ d → bit_xor a c ≡ bit_xor b d → a ≡ b
xor_cancel_right a b c d ha hb e e' =
    bit_xor_cancel_right 64 a b d ha hb (ap (bit_xor a) (sym e) ∙ e')

-- Two states of 64-bit words that step to the same state are the same.
pub next_state_injective :
    (p q : RngState) → IsValid p → IsValid q → next_state p ≡ next_state q → p ≡ q
unfolding next_state
next_state_injective p q v w e =
    λ i. record { s0 = same_s0 i; s1 = same_s1 i; s2 = same_s2 i; s3 = same_s3 i }
  where
    p2_lt : bit_xor p.s2 p.s0 < 2 ^ 64
    p2_lt = xor_lt p.s2 p.s0 v.s2_lt v.s0_lt

    q2_lt : bit_xor q.s2 q.s0 < 2 ^ 64
    q2_lt = xor_lt q.s2 q.s0 w.s2_lt w.s0_lt

    p3_lt : bit_xor p.s3 p.s1 < 2 ^ 64
    p3_lt = xor_lt p.s3 p.s1 v.s3_lt v.s1_lt

    q3_lt : bit_xor q.s3 q.s1 < 2 ^ 64
    q3_lt = xor_lt q.s3 q.s1 w.s3_lt w.s1_lt

    mixed_3 : bit_xor p.s3 p.s1 ≡ bit_xor q.s3 q.s1
    mixed_3 = rotl_45_injective _ _ p3_lt q3_lt (ap (λ (r : RngState). r.s3) e)

    same_s0 : p.s0 ≡ q.s0
    same_s0 = xor_cancel_right _ _ _ _ v.s0_lt w.s0_lt mixed_3 (ap (λ (r : RngState). r.s0) e)

    same_s1 : p.s1 ≡ q.s1
    same_s1 =
        xor_shl_injective p.s1 q.s1 _ _ v.s1_lt w.s1_lt p2_lt q2_lt (ap (λ (r : RngState). r.s1) e)
          (ap (λ (r : RngState). r.s2) e)

    mixed_2 : bit_xor p.s2 p.s0 ≡ bit_xor q.s2 q.s0
    mixed_2 = bit_xor_cancel 64 p.s1 _ _ p2_lt q2_lt (
        ap (λ (r : RngState). r.s1) e ∙ ap (λ (t : ℕ). bit_xor t (bit_xor q.s2 q.s0)) (sym same_s1))

    same_s2 : p.s2 ≡ q.s2
    same_s2 = xor_cancel_right _ _ _ _ v.s2_lt w.s2_lt same_s0 mixed_2

    same_s3 : p.s3 ≡ q.s3
    same_s3 = xor_cancel_right _ _ _ _ v.s3_lt w.s3_lt same_s1 mixed_3

abbrev pub zero_state : RngState
zero_state = record { s0 = 0; s1 = 0; s2 = 0; s3 = 0 }

-- A generator seeded with anything but zeros never comes to the state of all zeros.
pub next_state-ne-zero : (r : RngState) → IsValid r → r ≢ zero_state → next_state r ≢ zero_state
unfolding next_state xoroshiro256_rotl
next_state-ne-zero r v h e = h (next_state_injective r zero_state v (omega arith) e)
