-- ===== src/Unicode/Encode.antt =====
-- smb2_utf16_to_utf8 writes the UTF-8 of the scalars that its units stand for.
use photo_transfer_nativesmb.Common.{
  ℕ, ◌+◌, ◌*◌, ◌-◌, ◌/◌, ◌%◌, ◌^◌, ◌≤◌, ◌<◌, ◌≡◌, refl, ◌∙◌, ap, ◌⊎◌, inl, inr, List, [], ◌∷◌, All,
  ltb, arith, false, if◌then◌else◌,
}
use photo_transfer_nativesmb.Unicode.{
  utf16_to_utf8, kind, is_single, is_trail, join, two_bytes, three_bytes, four_bytes, one, two,
  three, lead, stray, replacement,
}
use photo_transfer_nativesmb.Unicode.Arithmetic.{
  two_bytes_lem, three_bytes_lem, four_bytes_lem, join_lem,
}
use photo_transfer_nativesmb.Unicode.Scalars.{
  IsScalar, utf8_bytes, utf16_units, utf8, utf16, code_points,
}

-- What the ladder tells of a unit.
kind_cases :
    (u : ℕ)
    → u < 2 ^ 16
    → (kind u ≡ one) × (u < 0x80)
      ⊎ (kind u ≡ two) × (0x80 ≤ u) × (u < 0x800)
      ⊎ (kind u ≡ three) × (0x800 ≤ u) × ((u < 0xd800) ⊎ (0xe000 ≤ u))
      ⊎ (kind u ≡ lead) × (0xd800 ≤ u) × (u < 0xdc00)
      ⊎ (kind u ≡ stray) × (0xdc00 ≤ u) × (u < 0xe000)
unfolding kind is_single
kind_cases u h = ground arith

is_trail-ltb : (t : ℕ) → t < 2 ^ 16 → is_trail t ≡ (if ltb t 0xdc00 then false else ltb t 0xe000)
unfolding is_trail
is_trail-ltb t h = ground arith

code_points-cons :
    (u : ℕ) (us : List ℕ) → (u < 0xd800) ⊎ (0xe000 ≤ u) → code_points (u ∷ us) ≡ u ∷ code_points us
unfolding code_points
code_points-cons u [] h = ground arith
code_points-cons u (t ∷ us) h = ground arith

code_points_pair :
    (u t : ℕ) (us : List ℕ)
    → 0xd800 ≤ u
    → u < 0xdc00
    → 0xdc00 ≤ t
    → t < 0xe000
    → code_points (u ∷ t ∷ us) ≡ (0x10000 + (u - 0xd800) * 1024 + (t - 0xdc00)) ∷ code_points us
unfolding code_points
code_points_pair u t us a b c d = ground arith

code_points_unpaired :
    (u t : ℕ) (us : List ℕ)
    → 0xd800 ≤ u
    → u < 0xe000
    → (0xdc00 ≤ u) ⊎ (t < 0xdc00) ⊎ (0xe000 ≤ t)
    → code_points (u ∷ t ∷ us) ≡ 0xfffd ∷ code_points (t ∷ us)
unfolding code_points
code_points_unpaired u t us a b c = ground arith

pub utf8_bytes_two : (c : ℕ) → 0x80 ≤ c → c < 0x800 → utf8_bytes c ≡ two_bytes c
unfolding utf8_bytes
utf8_bytes_two c lo hi = ground (arith, two_bytes_lem c)

pub utf8_bytes_three : (c : ℕ) → 0x800 ≤ c → c < 0x10000 → utf8_bytes c ≡ three_bytes c
unfolding utf8_bytes
utf8_bytes_three c lo hi = ground (arith, three_bytes_lem c)

pub utf8_bytes_four : (c : ℕ) → 0x10000 ≤ c → c < 0x110000 → utf8_bytes c ≡ four_bytes c
unfolding utf8_bytes
utf8_bytes_four c lo hi = ground (arith, four_bytes_lem c)

pub utf8_bytes_one : (c : ℕ) → c < 0x80 → utf8_bytes c ≡ c ∷ []
unfolding utf8_bytes
utf8_bytes_one c h = ground arith

utf8_bytes-replacement : utf8_bytes 0xfffd ≡ replacement
unfolding utf8_bytes
utf8_bytes-replacement = refl

-- One round of the loop on a unit that has another one behind it.
round_lem :
    (u t : ℕ) (us : List ℕ)
    → u < 2 ^ 16
    → t < 2 ^ 16
    → utf16_to_utf8 (t ∷ us) ≡ utf8 (code_points (t ∷ us))
    → utf16_to_utf8 us ≡ utf8 (code_points us)
    → utf16_to_utf8 (u ∷ t ∷ us) ≡ utf8 (code_points (u ∷ t ∷ us))
unfolding utf16_to_utf8 utf8
round_lem u t us hu ht h h' = elim (kind_cases u hu) [
  | inl a ↦ ground (arith, code_points-cons u (t ∷ us), utf8_bytes_one u)
  | inr (inl a) ↦ ground (arith, code_points-cons u (t ∷ us), utf8_bytes_two u)
  | inr (inr (inl a)) ↦ ground (arith, code_points-cons u (t ∷ us), utf8_bytes_three u)
  | inr (inr (inr (inl a))) ↦ ground (
    arith,
    is_trail-ltb t,
    join_lem u t,
    code_points_pair u t us,
    code_points_unpaired u t us,
    utf8_bytes_four (join u t),
    utf8_bytes-replacement,
  )
  | inr (inr (inr (inr a))) ↦ ground (arith, code_points_unpaired u t us, utf8_bytes-replacement)
]

-- `smb2_utf16_to_utf8` writes the UTF-8 of the scalars that 16-bit units stand for: a surrogate
-- pair as one scalar in four bytes, and U+FFFD for every surrogate without a partner, a leading one
-- at the end of the units included.
pub utf16_to_utf8-code_points :
    (us : List ℕ) → All (λ u. u < 2 ^ 16) us → utf16_to_utf8 us ≡ utf8 (code_points us)
unfolding utf16_to_utf8 kind is_single utf8 utf8_bytes code_points
utf16_to_utf8-code_points [] h = refl
utf16_to_utf8-code_points (u ∷ []) h = ground (arith, two_bytes_lem u, three_bytes_lem u)
utf16_to_utf8-code_points (u ∷ t ∷ us) (hu, (ht, h)) =
    round_lem u t us hu ht (utf16_to_utf8-code_points (t ∷ us) (ht, h))
      (utf16_to_utf8-code_points us h)

-- They are scalars.
pub code_points-IsScalar : (us : List ℕ) → All (λ u. u < 2 ^ 16) us → All IsScalar (code_points us)
unfolding code_points
code_points-IsScalar [] h = tt
code_points-IsScalar (u ∷ []) h = ground arith
code_points-IsScalar (u ∷ t ∷ us) (hu, (ht, h)) =
    ground (arith, code_points-IsScalar (t ∷ us) (ht, h), code_points-IsScalar us h)

-- The units of scalars stand for those scalars.
pub code_points-utf16 : (cs : List ℕ) → All IsScalar cs → code_points (utf16 cs) ≡ cs
unfolding utf16 utf16_units
code_points-utf16 [] h = unfold code_points in refl
code_points-utf16 (c ∷ cs) (hc, h) = ground (
  arith,
  code_points-cons c (utf16 cs),
  code_points_pair (0xd800 + (c - 0x10000) / 1024) (0xdc00 + c % 1024) (utf16 cs),
  code_points-utf16 cs h,
)

utf16_bounded : (cs : List ℕ) → All IsScalar cs → All (λ u. u < 2 ^ 16) (utf16 cs)
unfolding utf16 utf16_units
utf16_bounded [] h = tt
utf16_bounded (c ∷ cs) (hc, h) = ground (arith, utf16_bounded cs h)

-- `smb2_utf16_to_utf8` turns the UTF-16 of any scalars into their UTF-8.
pub utf16_to_utf8-utf16 : (cs : List ℕ) → All IsScalar cs → utf16_to_utf8 (utf16 cs) ≡ utf8 cs
utf16_to_utf8-utf16 cs h =
    utf16_to_utf8-code_points (utf16 cs) (utf16_bounded cs h) ∙ ap utf8 (code_points-utf16 cs h)
