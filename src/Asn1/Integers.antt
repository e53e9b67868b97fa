-- ===== src/Asn1/Integers.antt =====
-- Unsigned numbers: what asn1ber_ber_from_uint32 writes, asn1ber_uint32_from_ber reads.
use photo_transfer_nativesmb.Common.{
  ℕ, ◌+◌, ◌*◌, ◌/◌, ◌%◌, ◌^◌, ◌≤◌, ◌<◌, ◌≡◌, refl, sym, ap, ◌∙◌, List, [], ◌∷◌, ◌++◌, length, arith,
  true, bit_and,
}
use mathlib.Core.List.{append-nil}
use photo_transfer_nativesmb.Common.Bits.{bit_and_mask, bit_and_high}
use photo_transfer_nativesmb.Asn1.{Ber, done}
use photo_transfer_nativesmb.Asn1.Read.{uint32_from_ber, small_length, is_uint32_type}
use photo_transfer_nativesmb.Asn1.Write.{
  out_number, out_big_endian, top_byte, ber_from_typelen, ber_from_uint32,
}
use photo_transfer_nativesmb.Asn1.Input.{remaining, advance, next_byte-cons}
use photo_transfer_nativesmb.Asn1.Output.{HasRoom, appended, Emits, Emits-bind}
use photo_transfer_nativesmb.Asn1.Lengths.{
  be_bytes, length_bytes, length-be_bytes, Emits-out_big_endian, number_bytes,
}
use photo_transfer_nativesmb.Asn1.Strings.{
  reader, remaining-reader, Emits-ber_from_typelen, expect_type-cons,
}

-- The test of the top byte.
pub top_bits : (x : ℕ) → bit_and x (0xff * 2 ^ 24) ≡ x / 2 ^ 24 % 256 * 2 ^ 24
top_bits x = rw (bit_and_high 24 x 0xff, bit_and_mask 8 (x / 2 ^ 24) 0xff refl)

-- The count of bytes that `asn1ber_ber_from_uint32` finds.
top_byte_bounds :
    (val : ℕ)
    → val < 2 ^ 32
    → (1 ≤ top_byte 32 5 val 4) × (top_byte 32 5 val 4 ≤ 4) × (val < 2 ^ (8 * top_byte 32 5 val 4))
unfolding top_byte
top_byte_bounds val h =
    let v1 = val * 256 % 2 ^ 32 in
    let v2 = v1 * 256 % 2 ^ 32 in
    let v3 = v2 * 256 % 2 ^ 32 in
    ground (arith, top_bits val, top_bits v1, top_bits v2, top_bits v3)

pub Emits-out_number :
    (t n v : ℕ)
    → t < 256
    → n < 2 ^ 32
    → Emits (out_number t n v) tt ((t ∷ length_bytes n) ++ be_bytes n v)
unfolding out_number
Emits-out_number t n v ht hn =
    Emits-bind (ber_from_typelen t n) (λ _. out_big_endian n v) (length (length_bytes n) + 1) tt
      (t ∷ length_bytes n) (be_bytes n v) (Emits-ber_from_typelen t n ht hn)
      (Emits-out_big_endian n v)

uint32_from_ber-cons :
    (t n v : ℕ) (r : List ℕ) (a : Ber)
    → is_uint32_type t ≡ true
    → 1 ≤ n
    → n ≤ 4
    → v < 2 ^ 32
    → v < 2 ^ (8 * n)
    → remaining a ≡ t ∷ n ∷ (be_bytes n v ++ r)
    → (a' : Ber) × (uint32_from_ber a ≡ (done v, a')) × (remaining a' ≡ r)
unfolding uint32_from_ber small_length
uint32_from_ber-cons t n v r a ht lo hi hv fits e =
    let (tag, left) = expect_type-cons is_uint32_type t _ a ht e in
    let (len, left') = next_byte-cons (advance a 1) n (be_bytes n v ++ r) left in
    let (num, left'') = number_bytes 32 n v r (advance (advance a 1) 1) fits hv left' in
    (advance (advance (advance a 1) 1) n, ground arith, left'')

-- A number that `asn1ber_ber_from_uint32` wrote under a tag that `asn1ber_uint32_from_ber` accepts
-- is read back, whatever the number is, with nothing left.
pub uint32_from_ber-ber_from_uint32 :
    (t v : ℕ) (a : Ber) (d : List ℕ)
    → is_uint32_type t ≡ true
    → t < 256
    → v < 2 ^ 32
    → HasRoom a d 6
    → (a' r : Ber) × (ber_from_uint32 t v a ≡ (done tt, a'))
      × (uint32_from_ber (reader a a') ≡ (done v, r))
      × (remaining r ≡ [])
unfolding ber_from_uint32 length_bytes
uint32_from_ber-ber_from_uint32 t v a d ht hb hv room =
    let n = top_byte 32 5 v 4 in
    let (lo, hi, fits) = top_byte_bounds v hv in
    let short : length_bytes n ≡ n ∷ [] = ground arith in
    let all = t ∷ n ∷ be_bytes n v in
    let has_room : HasRoom a d (length all) = record {
      is_dst = room.is_dst;
      fits = omega (arith, room.fits, length-be_bytes n v);
      backed = room.backed;
    } in
    let wrote : ber_from_uint32 t v a ≡ (done tt, appended a d all) =
      rw short at (Emits-out_number t n v hb (omega arith)) a d has_room in
    let input = remaining-reader a d all has_room in
    let (r, read, left) =
      uint32_from_ber-cons t n v [] (reader a (appended a d all)) ht lo hi hv fits
        (input ∙ ap (λ x. t ∷ n ∷ x) (sym (append-nil (be_bytes n v)))) in
    (appended a d all, r, wrote, read, left)
