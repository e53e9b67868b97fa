-- ===== src/Asn1/Lengths.antt =====
-- Lengths and byte strings: what asn1ber_ber_from_length writes, asn1ber_length_from_ber reads.
use photo_transfer_nativesmb.Common.{
  ℕ, zero, suc, ◌+◌, ◌*◌, ◌/◌, ◌%◌, ◌^◌, ◌≤◌, ◌<◌, ◌≡◌, refl, sym, ap, ◌∙◌, List, [], ◌∷◌, ◌++◌,
  All, length, arith, ltb, lt→ltb, if◌then◌else◌, ◌⊎◌, inl, inr, bit_and, bit_or, false,
}
use mathlib.Core.Path.{subst}
use mathlib.Core.List.{append-nil}
use native.Mathlib.Nat.{pow-suc, div-add-mod, div-div-eq-div-mul, mod-eq_of_lt}
use native.Mathlib.Numerals.{towards_suc}
use photo_transfer_nativesmb.Common.Bits.{bit_and_mask, bit_or_field, bit_and_bit}
use photo_transfer_nativesmb.Asn1.{Ber, done, ◌>>◌, return, out_byte}
use photo_transfer_nativesmb.Asn1.Read.{big_endian, length_from_ber}
use photo_transfer_nativesmb.Asn1.Write.{out_big_endian, count_bytes, ber_from_length}
use photo_transfer_nativesmb.Asn1.Input.{
  remaining, advance, advance-add, next_byte-cons, be_value, big_endian-be_value,
}
use photo_transfer_nativesmb.Asn1.Output.{Emits, Emits-return, Emits-then, Emits-out_byte}

-- The `n` low bytes of `v`, highest first.
unfoldable pub be_bytes : ℕ → ℕ → List ℕ
be_bytes zero v = []
be_bytes (suc n) v = v / 2 ^ (8 * n) % 256 ∷ be_bytes n v

pub length-be_bytes : (n v : ℕ) → length (be_bytes n v) ≡ n
unfolding be_bytes
length-be_bytes zero v = refl
length-be_bytes (suc n) v = ap suc (length-be_bytes n v)

pub be_bytes-IsByte : (n v : ℕ) → All (λ b. b < 256) (be_bytes n v)
unfolding be_bytes
be_bytes-IsByte zero v = tt
be_bytes-IsByte (suc n) v = (omega arith, be_bytes-IsByte n v)

pub Emits-out_big_endian : (n v : ℕ) → Emits (out_big_endian n v) tt (be_bytes n v)
unfolding out_big_endian be_bytes
Emits-out_big_endian zero v = Emits-return tt
Emits-out_big_endian (suc n) v =
    Emits-then (out_byte (v / 2 ^ (8 * n) % 256)) (out_big_endian n v) tt
      (v / 2 ^ (8 * n) % 256 ∷ []) (be_bytes n v) (Emits-out_byte (v / 2 ^ (8 * n) % 256))
      (Emits-out_big_endian n v)

-- The bytes of a length, as X.690 has them.
unfoldable pub length_bytes : ℕ → List ℕ
length_bytes len =
    if ltb len 0x80
    then len ∷ []
    else (if ltb len 0x100
        then 0x81 ∷ be_bytes 1 len
        else (if ltb len 0x10000
            then 0x82 ∷ be_bytes 2 len
            else (if ltb len 0x1000000 then 0x83 ∷ be_bytes 3 len else 0x84 ∷ be_bytes 4 len)))

count_cases :
    (len : ℕ)
    → len < 2 ^ 32
    → (len < 128) × (length_bytes len ≡ len ∷ [])
      ⊎ (128 ≤ len)
        × (1 ≤ count_bytes 5 len)
        × (count_bytes 5 len ≤ 4)
        × (len < 256 ^ count_bytes 5 len)
        × (length_bytes len ≡ (0x80 + count_bytes 5 len) ∷ be_bytes (count_bytes 5 len) len)
unfolding count_bytes length_bytes
count_cases len h = ground arith

mod-mul : (p q v : ℕ) → v % (p * q) ≡ v / p % q * p + v % p
mod-mul p q v =
    let e : v / (p * q) ≡ v / p / q = rw div-div-eq-div-mul in
    omega (
      arith,
      rw e at (div-add-mod v (p * q)),
      div-add-mod v p,
      ap (λ (t : ℕ). p * t) (div-add-mod (v / p) q),
    )

pow_eight : (k : ℕ) → 2 ^ (k + 8) ≡ 2 ^ k * 256
pow_eight k = simp towards_suc (omega arith)

pub pow_byte : (n : ℕ) → 2 ^ (8 * suc n) ≡ 2 ^ (8 * n) * 256
pow_byte n = let e : 8 * suc n ≡ 8 * n + 8 = omega arith in rw e (pow_eight (8 * n))

-- Bytes of a number spell its low bits.
pub be_value-be_bytes :
    (n v acc : ℕ) → be_value acc (be_bytes n v) ≡ acc * 2 ^ (8 * n) + v % 2 ^ (8 * n)
unfolding be_value be_bytes
be_value-be_bytes zero v acc = omega arith
be_value-be_bytes (suc n) v acc =
    be_value-be_bytes n v (acc * 256 + v / 2 ^ (8 * n) % 256)
    ∙ rw (pow_byte n, mod-mul (2 ^ (8 * n)) 256 v) (omega arith)

pub Emits-ber_from_length :
    (len : ℕ)
    → len < 2 ^ 32
    → Emits (ber_from_length len) (length (length_bytes len)) (length_bytes len)
unfolding ber_from_length
Emits-ber_from_length len h = elim (count_cases len h) [
  | inl (small, e) ↦
      rw (e, lt→ltb len 128 small, mod-eq_of_lt {n = len} {m = 256} (omega arith))
        (Emits-then (out_byte len) (return 1) 1 (len ∷ []) [] (Emits-out_byte len) (Emits-return 1))
  | inr (large, lo, hi, fits, e) ↦
      let n = count_bytes 5 len in
      let is_large : ltb len 128 ≡ false = ground arith in
      let first : bit_or 0x80 n % 256 ≡ 0x80 + n = omega (arith, bit_or_field 7 1 n) in
      let size : length ((0x80 + n) ∷ be_bytes n len) ≡ 1 + n =
        omega (arith, length-be_bytes n len) in
      rw e (
        subst (λ v. Emits (ber_from_length len) v ((0x80 + n) ∷ be_bytes n len)) (sym size)
          (rw (is_large, first)
            (Emits-then (out_byte (0x80 + n)) (out_big_endian n len >> return (1 + n)) (1 + n)
              ((0x80 + n) ∷ []) (be_bytes n len) (Emits-out_byte (0x80 + n)) (after n))))
]
  where
    after : (n : ℕ) → Emits (out_big_endian n len >> return (1 + n)) (1 + n) (be_bytes n len)
    after n =
        subst (Emits (out_big_endian n len >> return (1 + n)) (1 + n)) (append-nil (be_bytes n len))
          (Emits-then (out_big_endian n len) (return (1 + n)) (1 + n) (be_bytes n len) []
            (Emits-out_big_endian n len) (Emits-return (1 + n)))

pow_bytes : (n : ℕ) → 256 ^ n ≡ 2 ^ (8 * n)
pow_bytes zero = omega arith
pow_bytes (suc n) = pow-suc 256 n ∙ rw (pow_byte n, pow_bytes n)

pub be_value-be_bytes_of_lt : (n v : ℕ) → v < 2 ^ (8 * n) → be_value 0 (be_bytes n v) ≡ v
be_value-be_bytes_of_lt n v f =
    be_value-be_bytes n v 0 ∙ omega (arith, mod-eq_of_lt {n = v} {m = 2 ^ (8 * n)} f)

-- The loops of the readers undo that of the writers.
pub number_bytes :
    (w n v : ℕ) (r : List ℕ) (a : Ber)
    → v < 2 ^ (8 * n)
    → v < 2 ^ w
    → remaining a ≡ be_bytes n v ++ r
    → (big_endian w n 0 a ≡ (done v, advance a n)) × (remaining (advance a n) ≡ r)
number_bytes w n v r a f h e =
    let value = be_value-be_bytes_of_lt n v f in
    let fits : be_value 0 (be_bytes n v) < 2 ^ w = rw value h in
    let read = big_endian-be_value w 0 (be_bytes n v) r a (be_bytes-IsByte n v) fits e in
    rw (value, length-be_bytes n v) at read

-- `asn1ber_length_from_ber` reads the length that stands in front of the input, and nothing more.
pub length_from_ber-length_bytes :
    (len : ℕ) (r : List ℕ) (a : Ber)
    → len < 2 ^ 32
    → remaining a ≡ length_bytes len ++ r
    → (length_from_ber a ≡ (done len, advance a (length (length_bytes len))))
      × (remaining (advance a (length (length_bytes len))) ≡ r)
unfolding length_from_ber
length_from_ber-length_bytes len r a h e = elim (count_cases len h) [
  | inl (small, eb) ↦
      let (step, left) = next_byte-cons a len r (rw eb at e) in
      ground (arith, eb, bit_and_bit 7 len)
  | inr (large, lo, hi, fits, eb) ↦
      let n = count_bytes 5 len in
      let (step, left) = next_byte-cons a (0x80 + n) (be_bytes n len ++ r) (rw eb at e) in
      let top : bit_and (0x80 + n) 0x80 ≡ 0x80 = omega (arith, bit_and_bit 7 (0x80 + n)) in
      let low : bit_and (0x80 + n) 0x7f ≡ n = omega (arith, bit_and_mask 7 (0x80 + n) 0x7f refl) in
      let (more, rest) = number_bytes 32 n len r (advance a 1) (rw (pow_bytes n) at fits) h left in
      ground (arith, eb, length-be_bytes n len, advance-add a n)
]
