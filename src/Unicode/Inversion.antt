-- ===== src/Unicode/Inversion.antt =====
-- What a successful call of validate_utf8_cp has read.
use photo_transfer_nativesmb.Common.{
  ℕ, suc, ◌+◌, ◌*◌, ◌-◌, ◌/◌, ◌%◌, ◌^◌, ◌≤◌, ◌<◌, ◌≡◌, ◌≢◌, refl, ◌⊎◌, inl, inr, List, [], ◌∷◌,
  ◌++◌, All, arith, some, none, Option, false, bit_and,
}
use photo_transfer_nativesmb.Common.Bits.{bit_or_field, bit_and_mask}
use photo_transfer_nativesmb.Unicode.{
  validate_utf8_cp, long_cp, continuation, is_overlong, units, l1, is_single,
}
use photo_transfer_nativesmb.Unicode.Arithmetic.{
  leading_ones, l1-eq-leading_ones, units_single, units_high, units_pair,
}
use photo_transfer_nativesmb.Unicode.Scalars.{IsScalar, utf8_bytes, utf16_units}

abbrev pub IsByte : ℕ → Type 0
IsByte b = b < 256

-- A round of the loop that goes on has read a byte 10.. .....
record Continues (n cp r : ℕ) (s s' : List ℕ) : Type 0 where
  byte : ℕ
  rest : List ℕ
  read : s ≡ byte ∷ rest
  low : 0x80 ≤ byte
  high : byte < 0xc0
  bytes : All IsByte rest
  more : continuation n (cp * 64 + byte % 64) rest ≡ some (r, s')

continuation-Continues :
    (n cp r : ℕ) (s s' : List ℕ)
    → cp < 2 ^ 26
    → All IsByte s
    → continuation (suc n) cp s ≡ some (r, s')
    → Continues n cp r s s'
unfolding continuation leading_ones
continuation-Continues n cp r [] s' hc h e = absurd (unfold l1 in cc)
continuation-Continues n cp r (c ∷ s) s' hc (hb, h) e = record {
  byte = c;
  rest = s;
  read = refl;
  low = ground (arith, l1-eq-leading_ones c);
  high = ground (arith, l1-eq-leading_ones c);
  bytes = h;
  more =
      ground (arith, l1-eq-leading_ones c, bit_and_mask 6 c 0x3f refl, bit_or_field 6 cp (c % 64));
}

units_none :
    (cp : ℕ) → ((0xd800 ≤ cp) × (cp < 0xe000)) ⊎ (0x110000 ≤ cp) × (cp < 2 ^ 32) → units cp ≡ none
unfolding units is_single
units_none cp h = ground arith

units-IsScalar :
    (cp : ℕ) (us : List ℕ) → cp < 2 ^ 32 → units cp ≡ some us → IsScalar cp × (us ≡ utf16_units cp)
unfolding utf16_units
units-IsScalar cp us h e =
    ground (arith, units_single cp, units_high cp, units_pair cp, units_none cp)

record LongParts (l c : ℕ) (s us s' : List ℕ) : Type 0 where
  cp : ℕ
  read : continuation (l - 1) (bit_and c (0x7f / 2 ^ l)) s ≡ some (cp, s')
  shortest : is_overlong l cp ≡ false
  written : units cp ≡ some us

long_cp-LongParts :
    (l c : ℕ) (s us s' : List ℕ) → long_cp l c s ≡ some (us, s') → LongParts l c s us s'
unfolding long_cp
long_cp-LongParts l c s us s' e = go (continuation (l - 1) (bit_and c (0x7f / 2 ^ l)) s) refl e
  where
    go :
        (o : Option (ℕ × List ℕ))
        → continuation (l - 1) (bit_and c (0x7f / 2 ^ l)) s ≡ o
        → long_cp l c s ≡ some (us, s')
        → LongParts l c s us s'
    go none k h = absurd (ground arith)
    go (some (cp, s'')) k h = record {
      cp = cp;
      read = ground arith;
      shortest = ground arith;
      written = ground arith;
    }

-- The scalar that was read, its bytes in front of the rest, and its units.
pub record Reads (xs us s' : List ℕ) : Type 0 where
  pub cp : ℕ
  pub scalar : IsScalar cp
  pub nonzero : cp ≢ 0
  pub units : us ≡ utf16_units cp
  pub bytes : xs ≡ utf8_bytes cp ++ s'

two-Reads :
    (c : ℕ) (s us s' : List ℕ)
    → 0xc0 ≤ c
    → c < 0xe0
    → All IsByte s
    → long_cp 2 c s ≡ some (us, s')
    → Reads (c ∷ s) us s'
unfolding utf8_bytes continuation
two-Reads c s us s' lo hi h e =
    let p = long_cp-LongParts 2 c s us s' e in
    let k =
      continuation-Continues 0 (c % 32) p.cp s s' (omega arith) h
        (ground (arith, p.read, bit_and_mask 5 c 0x1f refl)) in
    let v = units-IsScalar p.cp us (ground (arith, k.more)) p.written in
    record {
      cp = p.cp;
      scalar = v.0;
      nonzero = ground (arith, p.shortest);
      units = v.1;
      bytes = ground (arith, p.shortest, k.more, k.read, k.low, k.high);
    }

three-Reads :
    (c : ℕ) (s us s' : List ℕ)
    → 0xe0 ≤ c
    → c < 0xf0
    → All IsByte s
    → long_cp 3 c s ≡ some (us, s')
    → Reads (c ∷ s) us s'
unfolding utf8_bytes continuation
three-Reads c s us s' lo hi h e =
    let p = long_cp-LongParts 3 c s us s' e in
    let k =
      continuation-Continues 1 (c % 16) p.cp s s' (omega arith) h
        (ground (arith, p.read, bit_and_mask 4 c 0x0f refl)) in
    let j =
      continuation-Continues 0 (c % 16 * 64 + k.byte % 64) p.cp k.rest s' (omega arith) k.bytes
        k.more in
    let v = units-IsScalar p.cp us (ground (arith, j.more)) p.written in
    record {
      cp = p.cp;
      scalar = v.0;
      nonzero = ground (arith, p.shortest);
      units = v.1;
      bytes = ground (arith, p.shortest, j.more, j.read, j.low, j.high, k.read, k.low, k.high);
    }

four-Reads :
    (c : ℕ) (s us s' : List ℕ)
    → 0xf0 ≤ c
    → c < 0xf8
    → All IsByte s
    → long_cp 4 c s ≡ some (us, s')
    → Reads (c ∷ s) us s'
unfolding utf8_bytes continuation
four-Reads c s us s' lo hi h e =
    let p = long_cp-LongParts 4 c s us s' e in
    let k =
      continuation-Continues 2 (c % 8) p.cp s s' (omega arith) h
        (ground (arith, p.read, bit_and_mask 3 c 0x07 refl)) in
    let j =
      continuation-Continues 1 (c % 8 * 64 + k.byte % 64) p.cp k.rest s' (omega arith) k.bytes
        k.more in
    let i =
      continuation-Continues 0 ((c % 8 * 64 + k.byte % 64) * 64 + j.byte % 64) p.cp j.rest s'
        (omega arith) j.bytes j.more in
    let v = units-IsScalar p.cp us (ground (arith, i.more)) p.written in
    record {
      cp = p.cp;
      scalar = v.0;
      nonzero = ground (arith, p.shortest);
      units = v.1;
      bytes = ground (
        arith, p.shortest, i.more, i.read, i.low, i.high, j.read, j.low, j.high, k.read, k.low,
        k.high,
      );
    }

one-Reads : (c : ℕ) (s : List ℕ) → c < 0x80 → c ≢ 0 → Reads (c ∷ s) (c ∷ []) s
unfolding utf8_bytes utf16_units
one-Reads c s h nz = record {
  cp = c;
  scalar = inl (omega arith);
  nonzero = nz;
  units = ground arith;
  bytes = ground arith;
}

-- By the first byte.
first_cases :
    (c : ℕ) (s us s' : List ℕ)
    → c < 256
    → validate_utf8_cp (c ∷ s) ≡ some (us, s')
    → (c < 0x80) × (us ≡ c ∷ []) × (s' ≡ s)
      ⊎ (0xc0 ≤ c) × (c < 0xe0) × (long_cp 2 c s ≡ some (us, s'))
      ⊎ (0xe0 ≤ c) × (c < 0xf0) × (long_cp 3 c s ≡ some (us, s'))
      ⊎ (0xf0 ≤ c) × (c < 0xf8) × (long_cp 4 c s ≡ some (us, s'))
unfolding validate_utf8_cp leading_ones
first_cases c s us s' h e = ground (arith, l1-eq-leading_ones c, bit_and_mask 7 c 0x7f refl)

pub validate_utf8_cp-Reads :
    (c : ℕ) (s us s' : List ℕ)
    → c < 256
    → c ≢ 0
    → All IsByte s
    → validate_utf8_cp (c ∷ s) ≡ some (us, s')
    → Reads (c ∷ s) us s'
validate_utf8_cp-Reads c s us s' h nz hs e = elim (first_cases c s us s' h e) [
  | inl (lt, eu, es) ↦ rw (eu, es) (one-Reads c s lt nz)
  | inr (inl (lo, hi, k)) ↦ two-Reads c s us s' lo hi hs k
  | inr (inr (inl (lo, hi, k))) ↦ three-Reads c s us s' lo hi hs k
  | inr (inr (inr (lo, hi, k))) ↦ four-Reads c s us s' lo hi hs k
]
