-- ===== src/Asn1/Tests.antt =====
-- Concrete runs of the BER reader and writer: buffers of eight bytes.
use photo_transfer_nativesmb.Asn1.Read.{
  oid_element, oid_elements, big_endian, signed_value, small_length, expect_type, bytes_from_ber,
  int32_from_ber, oid_from_ber, length_from_ber,
}
use photo_transfer_nativesmb.Asn1.Write.{
  close_gap, saved_position, annotate_length, ber_from_single_oid, joined_elements, out_elements,
  ber_reserve_length, ber_from_typecode, out_big_endian, top_byte, ber_from_length,
  ber_from_typelen, out_number, out_signed, ber_from_bytes, ber_from_int32, ber_from_oid,
}
use photo_transfer_nativesmb.Asn1.{out_byte, next_byte, Ber, done, diverged, no_error}
use photo_transfer_nativesmb.Asn1.Lengths.{length_bytes}
use photo_transfer_nativesmb.Common.{
  ℕ, ◌≡◌, refl, List, [], ◌∷◌, length, arith, some, none, inl, inr, ◌-◌, ◌^◌,
}
use photo_transfer_nativesmb.Asn1.Input.{remaining}
use photo_transfer_nativesmb.Asn1.Strings.{reader, bytes_from_ber-ber_from_bytes}
use photo_transfer_nativesmb.Asn1.Signed.{int32_from_ber-ber_from_int32, ber_from_int32_diverges}

abbrev blank : List ℕ
blank = 0 ∷ 0 ∷ 0 ∷ 0 ∷ 0 ∷ 0 ∷ 0 ∷ 0 ∷ 0 ∷ 0 ∷ []

abbrev empty : Ber
empty = record {
  src = none;
  src_count = 0;
  src_tail = 0;
  dst = some blank;
  dst_size = 10;
  dst_head = 0;
  last_error = no_error;
}

abbrev input : List ℕ → Ber
input bs = record {
  src = some bs;
  src_count = length bs;
  src_tail = 0;
  dst = none;
  dst_size = 0;
  dst_head = 0;
  last_error = no_error;
}

bytes_from_ber-ber_from_bytes_example :
    (a' r : Ber) × (ber_from_bytes 0x04 (5 ∷ 6 ∷ []) empty ≡ (done tt, a'))
    × (bytes_from_ber 3 (reader empty a') ≡ (done (5 ∷ 6 ∷ 0 ∷ [], 2), r))
    × (remaining r ≡ [])
unfolding length_bytes
bytes_from_ber-ber_from_bytes_example =
    bytes_from_ber-ber_from_bytes 3 (5 ∷ 6 ∷ []) empty blank (omega arith) (omega arith)
      (record { is_dst = refl; fits = omega arith; backed = omega arith })

int32_from_ber-ber_from_int32_example :
    (a' r : Ber) × (ber_from_int32 1 0x02 300 empty ≡ (done tt, a'))
    × (int32_from_ber (reader empty a') ≡ (done 300, r))
    × (remaining r ≡ [])
int32_from_ber-ber_from_int32_example =
    int32_from_ber-ber_from_int32 0 0x02 300 empty blank refl (omega arith)
      (inr (inl (omega arith, omega arith)))
      (record { is_dst = refl; fits = omega arith; backed = omega arith })

ber_from_int32_diverges_example : ber_from_int32 1000 0x02 (2 ^ 32 - 1) empty ≡ (diverged, empty)
ber_from_int32_diverges_example =
    ber_from_int32_diverges 1000 0x02 (2 ^ 32 - 1) empty (omega arith) (omega arith)

-- 128 is written in one byte, which reads as -128.
written_128 :
    (ber_from_int32 1 0x02 128 empty).1.dst ≡ some (2 ∷ 1 ∷ 128 ∷ 0 ∷ 0 ∷ 0 ∷ 0 ∷ 0 ∷ 0 ∷ 0 ∷ [])
unfolding ber_from_int32 out_signed out_number ber_from_typelen out_byte ber_from_length top_byte
    out_big_endian
written_128 = refl

read_128 : (int32_from_ber (input (2 ∷ 1 ∷ 128 ∷ []))).0 ≡ done (2 ^ 32 - 128)
unfolding int32_from_ber expect_type next_byte small_length signed_value big_endian
read_128 = refl

-- 1.3.6.1.5.5.2, the identifier of SPNEGO.
abbrev spnego : List ℕ
spnego = 1 ∷ 3 ∷ 6 ∷ 1 ∷ 5 ∷ 5 ∷ 2 ∷ []

written_oid : (ber_from_oid spnego empty).1.dst ≡ some (6 ∷ 6 ∷ 43 ∷ 6 ∷ 1 ∷ 5 ∷ 5 ∷ 2 ∷ 0 ∷ 0 ∷ [])
unfolding ber_from_oid ber_from_typecode out_byte ber_reserve_length out_elements joined_elements
    ber_from_single_oid annotate_length ber_from_length saved_position close_gap
written_oid = refl

read_oid : (oid_from_ber (input (6 ∷ 6 ∷ 43 ∷ 6 ∷ 1 ∷ 5 ∷ 5 ∷ 2 ∷ []))).0 ≡ done spnego
unfolding oid_from_ber expect_type next_byte length_from_ber oid_elements oid_element
read_oid = refl
