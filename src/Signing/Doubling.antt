-- ===== src/Signing/Doubling.antt =====
-- The doubling of the sub-keys of AES-CMAC, by aes_cmac_shift_left.
use photo_transfer_nativesmb.Common.{
  ℕ, suc, ◌+◌, ◌*◌, ◌/◌, ◌%◌, ◌^◌, ◌≤◌, ◌<◌, ◌≡◌, refl, ap, ◌∙◌, List, [], ◌∷◌, All, length, arith,
  bit_and, bit_or,
}
use native.Mathlib.Nat.{pow-suc}
use photo_transfer_nativesmb.Common.Bits.{bit_and_bit, bit_or_field}
use photo_transfer_nativesmb.Asn1.Input.{be_value}
use photo_transfer_nativesmb.Signing.{shift_left}

byte_double : (b : ℕ) → b < 256 → b * 2 % 256 + b / 128 * 256 ≡ 2 * b
byte_double b h = omega arith

bit_or_carry : (a c : ℕ) → c ≤ 1 → bit_or (a * 2) c ≡ a * 2 + c
bit_or_carry a c h = bit_or_field 1 a c (omega arith)

be_value-acc : (acc : ℕ) (bs : List ℕ) → be_value acc bs ≡ acc * 256 ^ length bs + be_value 0 bs
unfolding be_value
be_value-acc acc [] = omega arith
be_value-acc acc (b ∷ bs) =
    let p : 256 ^ suc (length bs) ≡ 256 ^ length bs * 256 = pow-suc 256 (length bs) ∙ omega arith in
    rw p (omega (arith, be_value-acc (acc * 256 + b) bs, be_value-acc (0 * 256 + b) bs))

be_value-cons : (b : ℕ) (bs : List ℕ) → be_value 0 (b ∷ bs) ≡ b * 256 ^ length bs + be_value 0 bs
unfolding be_value
be_value-cons b bs = be_value-acc (0 * 256 + b) bs ∙ omega arith

-- `aes_cmac_shift_left` doubles the number that the bytes spell, and returns what does not fit.
pub shift_left-be_value :
    (bs : List ℕ)
    → All (λ b. b < 256) bs
    → (be_value 0 (shift_left bs).0 + (shift_left bs).1 * 256 ^ length bs ≡ 2 * be_value 0 bs)
      × (length (shift_left bs).0 ≡ length bs)
      × ((shift_left bs).1 ≤ 1)
unfolding shift_left be_value
shift_left-be_value [] h = (omega arith, refl, omega arith)
shift_left-be_value (b ∷ bs) (hb, h) =
    let (value, size, carry) = shift_left-be_value bs h in
    let p : 256 ^ suc (length bs) ≡ 256 ^ length bs * 256 = pow-suc 256 (length bs) ∙ omega arith in
    let out : bit_and b 0x80 / 2 ^ 7 ≡ b / 128 = omega (arith, bit_and_bit 7 b) in
    let low : bit_or (b * 2 % 256) (shift_left bs).1 ≡ b * 2 % 256 + (shift_left bs).1 =
      ap (λ t. bit_or t (shift_left bs).1) (omega arith)
      ∙ bit_or_carry (b % 128) (shift_left bs).1 carry
      ∙ omega arith in
    (
      rw (p, out, low)
          (omega (
            arith,
            value,
            be_value-cons (b * 2 % 256 + (shift_left bs).1) (shift_left bs).0,
            be_value-cons b bs,
            ap (λ n. (b * 2 % 256) * 256 ^ n) size,
            ap (λ n. (shift_left bs).1 * 256 ^ n) size,
            ap (λ (t : ℕ). t * 256 ^ length bs) (byte_double b hb),
          )),
      ap suc size,
      omega (arith, out),
    )
