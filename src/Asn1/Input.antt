-- ===== src/Asn1/Input.antt =====
-- The reader's context as the bytes that are left to read.
use photo_transfer_nativesmb.Common.{
  ℕ, zero, suc, ◌+◌, ◌-◌, ◌*◌, ◌%◌, ◌^◌, ◌≤◌, ◌<◌, ◌≡◌, refl, ap, List, [], ◌∷◌, ◌++◌, All, length,
  arith, none, some, get_or, inl, inr, Option-cases,
}
use native.Mathlib.Nat.{mod-eq_of_lt}
use photo_transfer_nativesmb.Common.Bits.{bit_or_field}
use photo_transfer_nativesmb.Wire.{get_bytes}
use photo_transfer_nativesmb.Asn1.{Ber, done, failed, next_byte}
use photo_transfer_nativesmb.Asn1.Read.{big_endian}

unfoldable pub remaining : Ber → List ℕ
remaining a = elim a.src [ none ↦ [] | some s ↦ get_bytes (a.src_count - a.src_tail) s a.src_tail ]

abbrev pub advance : Ber → ℕ → Ber
advance a n = record a { src_tail = a.src_tail + n }

get_bytes_step :
    (n : ℕ) (s : List ℕ) (i b : ℕ) (r : List ℕ)
    → get_bytes n s i ≡ b ∷ r
    → (0 < n) × (get_or s i 0 ≡ b) × (get_bytes (n - 1) s (i + 1) ≡ r)
unfolding get_bytes
get_bytes_step zero s i b r h = absurd (ground arith)
get_bytes_step (suc n) s i b r h = let e : suc n - 1 ≡ n = omega arith in rw e (ground arith)

get_bytes_none : (n : ℕ) (s : List ℕ) (i : ℕ) → get_bytes n s i ≡ [] → n ≡ 0
unfolding get_bytes
get_bytes_none zero s i h = refl
get_bytes_none (suc n) s i h = absurd (ground arith)

-- `asn1ber_next_byte` takes the first byte that is left, and fails without an effect at the end.
pub next_byte-cons :
    (a : Ber) (b : ℕ) (r : List ℕ)
    → remaining a ≡ b ∷ r
    → (next_byte a ≡ (done b, advance a 1)) × (remaining (advance a 1) ≡ r)
unfolding next_byte remaining
next_byte-cons a b r h = elim (Option-cases a.src) [
  | inl e ↦ absurd (ground arith)
  | inr (s, e) ↦
      let e' : a.src_count - (a.src_tail + 1) ≡ a.src_count - a.src_tail - 1 = omega arith in
      ground (arith, get_bytes_step (a.src_count - a.src_tail) s a.src_tail b r)
]

pub next_byte-nil : (a : Ber) → remaining a ≡ [] → next_byte a ≡ (failed, a)
unfolding next_byte remaining
next_byte-nil a h = elim (Option-cases a.src) [
  | inl e ↦ ground arith
  | inr (s, e) ↦ ground (arith, get_bytes_none (a.src_count - a.src_tail) s a.src_tail)
]

-- The number that bytes spell, highest first, behind the value `acc`.
unfoldable pub be_value : ℕ → List ℕ → ℕ
be_value acc [] = acc
be_value acc (b ∷ bs) = be_value (acc * 256 + b) bs

le-be_value : (acc : ℕ) (bs : List ℕ) → acc ≤ be_value acc bs
unfolding be_value
le-be_value acc [] = omega arith
le-be_value acc (b ∷ bs) = omega (arith, le-be_value (acc * 256 + b) bs)

pub advance-add : (a : Ber) (n : ℕ) → advance (advance a 1) n ≡ advance a (suc n)
advance-add a n = ap (λ t. record a { src_tail = t }) (omega arith)

-- The loops over the bytes of a number read the number that the bytes spell, where it fits.
pub big_endian-be_value :
    (w val : ℕ) (bs r : List ℕ) (a : Ber)
    → All (λ b. b < 256) bs
    → be_value val bs < 2 ^ w
    → remaining a ≡ bs ++ r
    → (big_endian w (length bs) val a ≡ (done (be_value val bs), advance a (length bs)))
      × (remaining (advance a (length bs)) ≡ r)
unfolding big_endian be_value
big_endian-be_value w val [] r a hb h e =
    let e0 : advance a 0 ≡ a = ap (λ t. record a { src_tail = t }) (omega arith) in (rw e0, rw e0 e)
big_endian-be_value w val (b ∷ bs) r a (hb, hbs) h e =
    let (step, left) = next_byte-cons a b (bs ++ r) e in
    let fits : val * 256 % 2 ^ w ≡ val * 256 =
      mod-eq_of_lt (omega (arith, le-be_value (val * 256 + b) bs)) in
    let (more, rest) = big_endian-be_value w (val * 256 + b) bs r (advance a 1) hbs h left in
    ground (arith, bit_or_field 8 val b, advance-add a (length bs))
