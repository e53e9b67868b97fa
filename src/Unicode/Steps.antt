-- ===== src/Unicode/Steps.antt =====
-- One call of validate_utf8_cp on the bytes of a code point.
use photo_transfer_nativesmb.Common.{
  ℕ, ◌+◌, ◌-◌, ◌/◌, ◌%◌, ◌^◌, ◌≤◌, ◌<◌, List, [], ◌∷◌, ◌++◌, ◌≡◌, refl, false, some, bit_and, arith,
}
use photo_transfer_nativesmb.Common.Bits.{bit_and_mask}
use photo_transfer_nativesmb.Unicode.{
  l1, two_bytes, three_bytes, four_bytes, units, continuation, validate_utf8_cp, long_cp,
  is_overlong,
}
use photo_transfer_nativesmb.Unicode.Arithmetic.{
  leading_ones, l1-eq-leading_ones, two_bytes_lem, three_bytes_lem, four_bytes_lem,
  continuation_step, units_single,
}

pub step_one : (c : ℕ) (s : List ℕ) → c < 0x80 → validate_utf8_cp (c ∷ s) ≡ some (c ∷ [], s)
unfolding validate_utf8_cp leading_ones
step_one c s h = ground (arith, l1-eq-leading_ones c, bit_and_mask 7 c 0x7f refl)

continuation_end : (cp : ℕ) (s : List ℕ) → continuation 0 cp s ≡ some (cp, s)
unfolding continuation
continuation_end cp s = refl

-- What the parts of the long case give, put together.
step_long :
    (l c cp : ℕ) (s s' us : List ℕ)
    → l1 c ≡ l
    → 1 < l
    → l < 5
    → continuation (l - 1) (bit_and c (0x7f / 2 ^ l)) s ≡ some (cp, s')
    → is_overlong l cp ≡ false
    → units cp ≡ some us
    → validate_utf8_cp (c ∷ s) ≡ some (us, s')
unfolding validate_utf8_cp long_cp
step_long l c cp s s' us hl lo hi k o u = ground arith

pub step_two :
    (c : ℕ) (s : List ℕ)
    → 0x80 ≤ c
    → c < 0x800
    → validate_utf8_cp (two_bytes c ++ s) ≡ some (c ∷ [], s)
unfolding leading_ones
step_two c s lo hi = rw (two_bytes_lem c hi) (
    step_long 2 (0xc0 + c / 64) c ((0x80 + c % 64) ∷ s) s (c ∷ [])
      (ground (arith, l1-eq-leading_ones (0xc0 + c / 64))) (omega arith) (omega arith)
      (ground (
        arith,
        bit_and_mask 5 (0xc0 + c / 64) 0x1f refl,
        continuation_step 0 (c / 64) (0x80 + c % 64) s,
        continuation_end c s,
      ))
      (ground arith) (units_single c (omega arith)))

pub step_three :
    (c : ℕ) (s us : List ℕ)
    → 0x800 ≤ c
    → c < 0x10000
    → units c ≡ some us
    → validate_utf8_cp (three_bytes c ++ s) ≡ some (us, s)
unfolding leading_ones
step_three c s us lo hi u = rw (three_bytes_lem c hi) (
    step_long 3 (0xe0 + c / 4096) c ((0x80 + c / 64 % 64) ∷ (0x80 + c % 64) ∷ s) s us
      (ground (arith, l1-eq-leading_ones (0xe0 + c / 4096))) (omega arith) (omega arith)
      (ground (
        arith,
        bit_and_mask 4 (0xe0 + c / 4096) 0x0f refl,
        continuation_step 1 (c / 4096) (0x80 + c / 64 % 64) ((0x80 + c % 64) ∷ s),
        continuation_step 0 (c / 64) (0x80 + c % 64) s,
        continuation_end c s,
      ))
      (ground arith) u)

pub step_four :
    (c : ℕ) (s us : List ℕ)
    → 0x10000 ≤ c
    → c < 0x110000
    → units c ≡ some us
    → validate_utf8_cp (four_bytes c ++ s) ≡ some (us, s)
unfolding leading_ones
step_four c s us lo hi u = rw (four_bytes_lem c (omega arith)) (
    step_long 4 (0xf0 + c / 2 ^ 18) c
      ((0x80 + c / 4096 % 64) ∷ (0x80 + c / 64 % 64) ∷ (0x80 + c % 64) ∷ s) s us
      (ground (arith, l1-eq-leading_ones (0xf0 + c / 2 ^ 18))) (omega arith) (omega arith)
      (ground (
        arith,
        bit_and_mask 3 (0xf0 + c / 2 ^ 18) 0x07 refl,
        continuation_step 2 (c / 2 ^ 18) (0x80 + c / 4096 % 64)
            ((0x80 + c / 64 % 64) ∷ (0x80 + c % 64) ∷ s),
        continuation_step 1 (c / 4096) (0x80 + c / 64 % 64) ((0x80 + c % 64) ∷ s),
        continuation_step 0 (c / 64) (0x80 + c % 64) s,
        continuation_end c s,
      ))
      (ground arith) u)
