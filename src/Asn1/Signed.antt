-- ===== src/Asn1/Signed.antt =====
-- Signed numbers: which of those that asn1ber_ber_from_int32 writes asn1ber_int32_from_ber reads,
-- and which it never finishes.
use photo_transfer_nativesmb.Common.{
  ℕ, zero, suc, none, ◌+◌, ◌*◌, ◌/◌, ◌%◌, ◌^◌, ◌≤◌, ◌<◌, ◌≡◌, refl, sym, ap, ◌∙◌, List, [], ◌∷◌,
  ◌++◌, length, arith, true, ◌==◌, leb, ◌⊎◌, inl, inr, if◌then◌else◌, ◌-◌, bit_and, bit_or,
}
use mathlib.Core.List.{append-nil}
use photo_transfer_nativesmb.Common.Bits.{bit_and_mask, bit_and_high, bit_and_bit, bit_or_field}
use photo_transfer_nativesmb.Asn1.{Ber, done, diverged}
use photo_transfer_nativesmb.Asn1.Read.{
  int32_from_ber, is_int32_type, small_length, signed_value, big_endian,
}
use photo_transfer_nativesmb.Asn1.Write.{
  out_number, top_byte, ber_from_int32, out_signed, signed_loop,
}
use photo_transfer_nativesmb.Asn1.Input.{
  remaining, advance, advance-add, next_byte-cons, be_value, big_endian-be_value,
}
use photo_transfer_nativesmb.Asn1.Output.{HasRoom, appended}
use photo_transfer_nativesmb.Asn1.Lengths.{
  be_bytes, length_bytes, length-be_bytes, be_bytes-IsByte, be_value-be_bytes_of_lt,
}
use photo_transfer_nativesmb.Asn1.Strings.{reader, remaining-reader, expect_type-cons}
use photo_transfer_nativesmb.Asn1.Integers.{top_bits, Emits-out_number}

-- The reader of signed numbers, on bytes that spell a number of the same sign.
signed_value-cons :
    (m v : ℕ) (r : List ℕ) (a : Ber)
    → v < 2 ^ 32
    → v < 2 ^ (8 * suc m)
    → v / 2 ^ (8 * m) % 256 < 128
    → remaining a ≡ be_bytes (suc m) v ++ r
    → (signed_value 32 (suc m) a ≡ (done v, advance a (suc m)))
      × (remaining (advance a (suc m)) ≡ r)
unfolding signed_value be_bytes be_value
signed_value-cons m v r a hv fits low e =
    let hd = v / 2 ^ (8 * m) % 256 in
    let (step, left) = next_byte-cons a hd (be_bytes m v ++ r) e in
    let value : be_value hd (be_bytes m v) ≡ v =
      ap (λ x. be_value x (be_bytes m v)) (omega arith) ∙ be_value-be_bytes_of_lt (suc m) v fits in
    let rest =
      big_endian-be_value 32 hd (be_bytes m v) r (advance a 1) (be_bytes-IsByte m v) (rw value hv)
        left in
    let (more, left') = rw (value, length-be_bytes m v) at rest in
    let y : bit_and hd 0x80 ≡ 0 = omega (arith, bit_and_bit 7 hd) in
    let x : bit_or 0 hd ≡ hd = omega (arith, bit_or_field 8 0 hd) in
    let k : suc m - 1 ≡ m = omega arith in
    (ground (arith, advance-add a m), rw (← advance-add a m) left')

-- The same for the four bytes of a negative number.
signed_value_four :
    (b0 b1 b2 b3 : ℕ) (r : List ℕ) (a : Ber)
    → 128 ≤ b0
    → b0 < 256
    → b1 < 256
    → b2 < 256
    → b3 < 256
    → remaining a ≡ b0 ∷ b1 ∷ b2 ∷ b3 ∷ r
    → (a' : Ber) × (signed_value 32 4 a ≡ (done (b0 * 2 ^ 24 + b1 * 2 ^ 16 + b2 * 2 ^ 8 + b3), a'))
      × (remaining a' ≡ r)
unfolding signed_value big_endian
signed_value_four b0 b1 b2 b3 r a top h0 h1 h2 h3 e =
    let (s0, l0) = next_byte-cons a b0 (b1 ∷ b2 ∷ b3 ∷ r) e in
    let (s1, l1) = next_byte-cons (advance a 1) b1 (b2 ∷ b3 ∷ r) l0 in
    let (s2, l2) = next_byte-cons (advance (advance a 1) 1) b2 (b3 ∷ r) l1 in
    let (s3, l3) = next_byte-cons (advance (advance (advance a 1) 1) 1) b3 r l2 in
    let y0 : bit_and b0 0x80 ≡ 0x80 = omega (arith, bit_and_bit 7 b0) in
    let x0 : bit_or 0xffffff00 b0 ≡ 0xffffff00 + b0 = bit_or_field 8 0xffffff b0 h0 in
    let y1 : (0xffffff00 + b0) * 256 % 2 ^ 32 ≡ (0xffff00 + b0) * 256 = omega arith in
    let x1 = bit_or_field 8 (0xffff00 + b0) b1 h1 in
    let y2 : ((0xffff00 + b0) * 256 + b1) * 256 % 2 ^ 32 ≡ (0xff0000 + b0 * 256 + b1) * 256 =
      omega arith in
    let x2 = bit_or_field 8 (0xff0000 + b0 * 256 + b1) b2 h2 in
    let y3 : ((0xff0000 + b0 * 256 + b1) * 256 + b2) * 256 % 2 ^ 32
        ≡ (b0 * 65536 + b1 * 256 + b2) * 256 =
      omega arith in
    let x3 = bit_or_field 8 (b0 * 65536 + b1 * 256 + b2) b3 h3 in
    (advance (advance (advance (advance a 1) 1) 1) 1, ground arith, l3)

signed_value_negative :
    (v : ℕ) (r : List ℕ) (a : Ber)
    → 2 ^ 31 ≤ v
    → v < 2 ^ 32
    → remaining a ≡ be_bytes 4 v ++ r
    → (a' : Ber) × (signed_value 32 4 a ≡ (done v, a')) × (remaining a' ≡ r)
unfolding be_bytes
signed_value_negative v r a lo hi e =
    let b0 = v / 2 ^ 24 % 256 in
    let b1 = v / 2 ^ 16 % 256 in
    let b2 = v / 2 ^ 8 % 256 in
    let b3 = v / 2 ^ 0 % 256 in
    let joined : b0 * 2 ^ 24 + b1 * 2 ^ 16 + b2 * 2 ^ 8 + b3 ≡ v = omega arith in
    let (a', value, rest) =
      signed_value_four b0 b1 b2 b3 r a (omega arith) (omega arith) (omega arith) (omega arith)
        (omega arith) e in
    (a', rw joined at value, rest)

-- The test for nine bits that are set.
top_nine : (x : ℕ) → bit_and x (0x1ff * 2 ^ 23) ≡ x / 2 ^ 23 % 512 * 2 ^ 23
top_nine x = rw (bit_and_high 23 x 0x1ff, bit_and_mask 9 (x / 2 ^ 23) 0x1ff refl)

signed_loop_diverges :
    (fuel v needed : ℕ) → 2 ^ 32 - 2 ^ 23 ≤ v → v < 2 ^ 32 → signed_loop 32 fuel v needed ≡ none
unfolding signed_loop
signed_loop_diverges zero v needed lo hi = refl
signed_loop_diverges (suc fuel) v needed lo hi =
    ground (arith, top_nine v, signed_loop_diverges fuel v ((needed + 2 ^ 32 - 1) % 2 ^ 32) lo hi)

-- `asn1ber_ber_from_int32` of a number from -2^23 to -1 has not returned after any number of rounds
-- of the loop that counts the bytes of a negative number, whatever the buffer.
pub ber_from_int32_diverges :
    (fuel t v : ℕ) (a : Ber)
    → 2 ^ 32 - 2 ^ 23 ≤ v
    → v < 2 ^ 32
    → ber_from_int32 fuel t v a ≡ (diverged, a)
unfolding ber_from_int32 out_signed
ber_from_int32_diverges fuel t v a lo hi = ground (arith, signed_loop_diverges fuel v 4 lo hi)

-- The patterns of the numbers whose first byte has room for the sign: all below -2^23 among them.
abbrev pub HasSignBit : ℕ → Type 0
HasSignBit v =
    (v < 2 ^ 7)
    ⊎ (2 ^ 8 ≤ v) × (v < 2 ^ 15)
    ⊎ (2 ^ 16 ≤ v) × (v < 2 ^ 23)
    ⊎ (2 ^ 24 ≤ v) × (v < 2 ^ 32 - 2 ^ 23)

-- The count of bytes that the writer finds for such a number.
unfoldable signed_count : ℕ → ℕ
signed_count v = if v == 0 then 1 else (if leb (2 ^ 31) v then 4 else top_byte 32 5 v 4)

ber_from_int32-out_number :
    (fuel t v : ℕ) → HasSignBit v → ber_from_int32 (suc fuel) t v ≡ out_number t (signed_count v) v
unfolding ber_from_int32 out_signed signed_count signed_loop
ber_from_int32-out_number fuel t v h = ground (arith, top_nine v)

-- The number takes `m + 1` bytes, and the sign bit of the first is clear.
record IsPositive (v m : ℕ) : Type 0 where
  count : signed_count v ≡ suc m
  short : m < 4
  below : v < 2 ^ 31
  fits : v < 2 ^ (8 * suc m)
  clear : v / 2 ^ (8 * m) % 256 < 128

sign_cases : (v : ℕ) → (v < 2 ^ 31) ⊎ (2 ^ 31 ≤ v)
sign_cases v = omega arith

signed_count_cases :
    (v : ℕ)
    → HasSignBit v
    → (signed_count v ≡ 4) × (2 ^ 31 ≤ v) × (v < 2 ^ 32) ⊎ (m : ℕ) × IsPositive v m
unfolding signed_count top_byte
signed_count_cases v h =
    let v1 = v * 256 % 2 ^ 32 in
    let v2 = v1 * 256 % 2 ^ 32 in
    let v3 = v2 * 256 % 2 ^ 32 in
    elim h [
      | inl h1 ↦ inr (0, ground (arith, top_bits v, top_bits v1, top_bits v2, top_bits v3))
      | inr (inl h2) ↦ inr (1, ground (arith, top_bits v, top_bits v1, top_bits v2))
      | inr (inr (inl h3)) ↦ inr (2, ground (arith, top_bits v, top_bits v1))
      | inr (inr (inr h4)) ↦ elim (sign_cases v) [
        | inl lo ↦ inr (3, ground (arith, top_bits v))
        | inr hi ↦ inl (ground arith)
      ]
    ]

signed_count_small : (v : ℕ) → HasSignBit v → signed_count v ≤ 4
signed_count_small v h = elim (signed_count_cases v h) [
  | inl (n, _, _) ↦ omega arith
  | inr (m, p) ↦ omega (arith, p.count, p.short)
]

int32_from_ber-cons :
    (t n v : ℕ) (r : List ℕ) (a a2 : Ber)
    → is_int32_type t ≡ true
    → 1 ≤ n
    → n ≤ 4
    → remaining a ≡ t ∷ n ∷ (be_bytes n v ++ r)
    → signed_value 32 n (advance (advance a 1) 1) ≡ (done v, a2)
    → int32_from_ber a ≡ (done v, a2)
unfolding int32_from_ber small_length
int32_from_ber-cons t n v r a a2 ht lo hi e value =
    let (tag, left) = expect_type-cons is_int32_type t _ a ht e in
    let (len, left') = next_byte-cons (advance a 1) n (be_bytes n v ++ r) left in ground arith

-- `asn1ber_int32_from_ber` on what the writer makes of such a number.
int32_from_ber-signed_count :
    (t v : ℕ) (r : List ℕ) (a : Ber)
    → is_int32_type t ≡ true
    → HasSignBit v
    → remaining a ≡ t ∷ signed_count v ∷ (be_bytes (signed_count v) v ++ r)
    → (a' : Ber) × (int32_from_ber a ≡ (done v, a')) × (remaining a' ≡ r)
int32_from_ber-signed_count t v r a ht h e =
    let (tag, left) = expect_type-cons is_int32_type t _ a ht e in
    let (len, left') = next_byte-cons (advance a 1) (signed_count v) _ left in
    elim (signed_count_cases v h) [
      | inl (n, lo, hi) ↦
          let four : remaining a ≡ t ∷ 4 ∷ (be_bytes 4 v ++ r) = rw n at e in
          let (a', value, rest) =
            signed_value_negative v r (advance (advance a 1) 1) lo hi (rw n at left') in
          (a', int32_from_ber-cons t 4 v r a a' ht (omega arith) (omega arith) four value, rest)
      | inr (m, p) ↦
          let (value, rest) =
            signed_value-cons m v r (advance (advance a 1) 1) (omega (arith, p.below)) p.fits
              p.clear (rw p.count at left') in
          (
            _,
            int32_from_ber-cons t (suc m) v r a _ ht (omega arith) (omega (arith, p.short))
                (rw p.count at e) value,
            rest,
          )
    ]

-- A number whose first byte has room for the sign, written by `asn1ber_ber_from_int32` under a tag
-- that `asn1ber_int32_from_ber` accepts, is read back, with nothing left. One round of the writer's
-- loop for negative numbers is enough.
pub int32_from_ber-ber_from_int32 :
    (fuel t v : ℕ) (a : Ber) (d : List ℕ)
    → is_int32_type t ≡ true
    → t < 256
    → HasSignBit v
    → HasRoom a d 6
    → (a' r : Ber) × (ber_from_int32 (suc fuel) t v a ≡ (done tt, a'))
      × (int32_from_ber (reader a a') ≡ (done v, r))
      × (remaining r ≡ [])
unfolding length_bytes
int32_from_ber-ber_from_int32 fuel t v a d ht hb h room =
    let n = signed_count v in
    let small = signed_count_small v h in
    let short : length_bytes n ≡ n ∷ [] = ground arith in
    let all = t ∷ n ∷ be_bytes n v in
    let has_room : HasRoom a d (length all) = record {
      is_dst = room.is_dst;
      fits = omega (arith, room.fits, length-be_bytes n v);
      backed = room.backed;
    } in
    let wrote : ber_from_int32 (suc fuel) t v a ≡ (done tt, appended a d all) =
      rw (ber_from_int32-out_number fuel t v h)
        (rw short at (Emits-out_number t n v hb (omega arith)) a d has_room) in
    let input = remaining-reader a d all has_room in
    let (r, read, left) =
      int32_from_ber-signed_count t v [] (reader a (appended a d all)) ht h
        (input ∙ ap (λ x. t ∷ n ∷ x) (sym (append-nil (be_bytes n v)))) in
    (appended a d all, r, wrote, read, left)
