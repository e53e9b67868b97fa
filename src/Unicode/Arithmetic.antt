-- ===== src/Unicode/Arithmetic.antt =====
-- The bytes and units of unicode.c in plain arithmetic.
use photo_transfer_nativesmb.Common.{
  false, if◌then◌else◌, ℕ, zero, suc, ◌+◌, ◌-◌, ◌*◌, ◌/◌, ◌%◌, ◌^◌, ◌≤◌, ◌<◌, List, [], ◌∷◌, ◌≡◌,
  refl, Bool, true, ◌&&◌, ◌||◌, ltb, ◌==◌, if◌then◌else◌, some, arith, ==_iff,
}
use photo_transfer_nativesmb.Common.Bits.{bit_or_field, bit_and_mask}
use photo_transfer_nativesmb.Unicode.{
  l1, two_bytes, three_bytes, four_bytes, join, is_single, units, continuation,
}

-- The number of leading ones of a byte, by ranges.
unfoldable pub leading_ones : ℕ → ℕ
leading_ones c =
    if ltb c 0x80
    then 0
    else (if ltb c 0xc0
        then 1
        else (if ltb c 0xe0
            then 2
            else (if ltb c 0xf0 then 3 else (if ltb c 0xf8 then 4 else l1 c))))

-- A test that holds of every number under a bound, by running it.
holds_under : (ℕ → Bool) → ℕ → Bool
holds_under test zero = true
holds_under test (suc bound) = if test bound then holds_under test bound else false

at_each :
    (test : ℕ → Bool) (bound c : ℕ) → c < bound → holds_under test bound ≡ true → test c ≡ true
unfolding holds_under
at_each test zero c under h = absurd (omega arith)
at_each test (suc bound) c under h = ground (arith, at_each test bound c)

l1_table : holds_under (λ c. (l1 c == leading_ones c) && (ltb c 0xf8 || ltb 4 (l1 c))) 256 ≡ true
unfolding holds_under l1 leading_ones
l1_table = refl

pub l1-eq-leading_ones :
    (c : ℕ) → c < 256 → (l1 c ≡ leading_ones c) × (ltb c 0xf8 || ltb 4 (l1 c) ≡ true)
l1-eq-leading_ones c h = ground (arith, at_each _ 256 c h l1_table, ==_iff (l1 c) (leading_ones c))

pub two_bytes_lem : (c : ℕ) → c < 0x800 → two_bytes c ≡ (0xc0 + c / 64) ∷ (0x80 + c % 64) ∷ []
unfolding two_bytes
two_bytes_lem c h =
    ground (arith, bit_or_field 6 3 (c / 64), bit_and_mask 6 c 0x3f refl, bit_or_field 6 2 (c % 64))

pub three_bytes_lem :
    (c : ℕ)
    → c < 0x10000
    → three_bytes c ≡ (0xe0 + c / 4096) ∷ (0x80 + c / 64 % 64) ∷ (0x80 + c % 64) ∷ []
unfolding three_bytes
three_bytes_lem c h = ground (
  arith,
  bit_or_field 5 7 (c / 4096),
  bit_and_mask 6 c 0x3f refl,
  bit_and_mask 6 (c / 64) 0x3f refl,
  bit_or_field 6 2 (c % 64),
  bit_or_field 6 2 (c / 64 % 64),
)

pub four_bytes_lem :
    (c : ℕ)
    → c < 0x200000
    → four_bytes c
      ≡ (0xf0 + c / 2 ^ 18) ∷ (0x80 + c / 4096 % 64) ∷ (0x80 + c / 64 % 64) ∷ (0x80 + c % 64) ∷ []
unfolding four_bytes
four_bytes_lem c h = ground (
  arith,
  bit_or_field 4 15 (c / 2 ^ 18),
  bit_and_mask 6 c 0x3f refl,
  bit_and_mask 6 (c / 64) 0x3f refl,
  bit_and_mask 6 (c / 4096) 0x3f refl,
  bit_or_field 6 2 (c % 64),
  bit_or_field 6 2 (c / 64 % 64),
  bit_or_field 6 2 (c / 4096 % 64),
)

pub join_lem : (code trail : ℕ) → join code trail ≡ 0x10000 + code % 1024 * 1024 + trail % 1024
unfolding join
join_lem code trail =
    omega (arith, bit_and_mask 10 code 0x3ff refl, bit_and_mask 10 trail 0x3ff refl)

-- A step of the loop on a byte 10.. ....
pub continuation_step :
    (n cp c : ℕ) (s : List ℕ)
    → cp < 2 ^ 26
    → 0x80 ≤ c
    → c < 0xc0
    → continuation (suc n) cp (c ∷ s) ≡ continuation n (cp * 64 + c % 64) s
unfolding continuation leading_ones
continuation_step n cp c s h lo hi =
    ground (arith, l1-eq-leading_ones c, bit_and_mask 6 c 0x3f refl, bit_or_field 6 cp (c % 64))

-- The units in plain arithmetic.
pub units_single : (cp : ℕ) → cp < 0xd800 → units cp ≡ some (cp ∷ [])
unfolding units is_single
units_single cp h = ground arith

pub units_high : (cp : ℕ) → 0xe000 ≤ cp → cp < 0x10000 → units cp ≡ some (cp ∷ [])
unfolding units is_single
units_high cp lo hi = ground arith

pub units_pair :
    (cp : ℕ)
    → 0x10000 ≤ cp
    → cp < 0x110000
    → units cp ≡ some ((0xd800 + (cp - 0x10000) / 1024) ∷ (0xdc00 + cp % 1024) ∷ [])
unfolding units is_single
units_pair cp lo hi = ground (
  arith,
  bit_or_field 10 54 ((cp - 0x10000) / 1024),
  bit_and_mask 10 (cp - 0x10000) 0x3ff refl,
  bit_or_field 10 55 ((cp - 0x10000) % 1024),
)
