-- ===== src/Unicode/Scalars.antt =====
-- What UTF-8 and UTF-16 are: two encodings of lists of Unicode scalar values, in plain arithmetic.
-- The code of unicode.c is measured against these.
use photo_transfer_nativesmb.Common.{
  ℕ, ◌+◌, ◌-◌, ◌*◌, ◌/◌, ◌%◌, ◌≤◌, ◌<◌, ◌⊎◌, List, [], ◌∷◌, ◌++◌, ltb, if◌then◌else◌,
}

abbrev pub IsScalar : ℕ → Type 0
IsScalar cp = (cp < 0xd800) ⊎ (0xe000 ≤ cp) × (cp < 0x110000)

unfoldable pub utf8_bytes : ℕ → List ℕ
utf8_bytes c =
    if ltb c 0x80
    then c ∷ []
    else (if ltb c 0x800
        then (0xc0 + c / 64) ∷ (0x80 + c % 64) ∷ []
        else (if ltb c 0x10000
            then (0xe0 + c / 4096) ∷ (0x80 + c / 64 % 64) ∷ (0x80 + c % 64) ∷ []
            else (0xf0 + c / 262144)
              ∷ (0x80 + c / 4096 % 64)
              ∷ (0x80 + c / 64 % 64)
              ∷ (0x80 + c % 64)
              ∷ []))

unfoldable pub utf16_units : ℕ → List ℕ
utf16_units c =
    if ltb c 0x10000 then c ∷ [] else (0xd800 + (c - 0x10000) / 1024) ∷ (0xdc00 + c % 1024) ∷ []

unfoldable pub utf8 : List ℕ → List ℕ
utf8 [] = []
utf8 (c ∷ cs) = utf8_bytes c ++ utf8 cs

unfoldable pub utf16 : List ℕ → List ℕ
utf16 [] = []
utf16 (c ∷ cs) = utf16_units c ++ utf16 cs

-- The scalars that a list of units stands for, with U+FFFD for each surrogate that is not paired.
unfoldable pub code_points : List ℕ → List ℕ
code_points [] = []
code_points (u ∷ []) =
    if ltb u 0xd800 then u ∷ [] else (if ltb u 0xe000 then 0xfffd ∷ [] else u ∷ [])
code_points (u ∷ t ∷ us) =
    let rest = code_points (t ∷ us) in
    let past = code_points us in
    if ltb u 0xd800
    then u ∷ rest
    else (if ltb u 0xdc00
        then (if ltb t 0xdc00
            then 0xfffd ∷ rest
            else (if ltb t 0xe000
                then (0x10000 + (u - 0xd800) * 1024 + (t - 0xdc00)) ∷ past
                else 0xfffd ∷ rest))
        else (if ltb u 0xe000 then 0xfffd ∷ rest else u ∷ rest))
