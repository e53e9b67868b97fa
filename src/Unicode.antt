-- ===== src/Unicode.antt =====
-- Sources/CSMB/lib/unicode.c: UTF-8 to UTF-16LE and back. A C string is the list of the bytes
-- before its terminating NUL; a UTF-16 unit is its value, so that htole16 and le16toh do not show.
-- Memory is taken to suffice, and a string to be shorter than an `int` counts.
pub mod Arithmetic
mod Steps
mod Inversion
pub mod Size
pub mod Scalars
pub mod Encode
pub mod Decode
pub mod Sound
mod Tests
use photo_transfer_nativesmb.Common.{
  ℕ, zero, suc, ◌+◌, ◌-◌, ◌*◌, ◌/◌, ◌%◌, ◌^◌, List, [], ◌∷◌, ◌++◌, length, Bool, true, false, ◌||◌,
  ◌&&◌, not, ltb, ◌==◌, if◌then◌else◌, Option, none, some, bit_and, bit_or,
}

-- `while (c & 0x80) { i++; c <<= 1; }` on a char, with fuel: eight shifts leave 0.
unfoldable pub l1_loop : ℕ → ℕ → ℕ → ℕ
l1_loop zero c i = i
l1_loop (suc fuel) c i =
    let more = l1_loop fuel (c * 2 % 256) (i + 1) in if bit_and c 0x80 == 0 then i else more

unfoldable pub l1 : ℕ → ℕ
unfolding l1_loop
l1 c = l1_loop 9 c 0

-- `*(*utf8)++`: behind the last byte stands the NUL, and nothing is read after it.
unfoldable pub next_byte : List ℕ → ℕ × List ℕ
next_byte [] = (0, [])
next_byte (c ∷ s) = (c, s)

-- `while (--l_tmp)`: the bytes 10.. .... that follow, and the code point that they complete.
unfoldable pub continuation : ℕ → ℕ → List ℕ → Option (ℕ × List ℕ)
unfolding next_byte
continuation zero cp s = some (cp, s)
continuation (suc n) cp s =
    let (c, s') = next_byte s in
    let rest = continuation n (bit_or (cp * 2 ^ 6 % 2 ^ 32) (bit_and c 0x3f)) s' in
    if l1 c == 1 then rest else none

abbrev pub is_overlong : ℕ → ℕ → Bool
is_overlong l cp =
    if l == 2
    then ltb cp 0x80
    else (if l == 3 then ltb cp 0x800 else (if l == 4 then ltb cp 0x10000 else false))

-- `code < 0xd800 || code - 0xe000 < 0x2000` in 32 bits: one UTF-16 unit of its own.
unfoldable pub is_single : ℕ → Bool
is_single cp = ltb cp 0xd800 || ltb ((cp + 2 ^ 32 - 0xe000) % 2 ^ 32) 0x2000

-- The units that a code point is written in, if it is one.
unfoldable pub units : ℕ → Option (List ℕ)
units cp =
    if is_single cp
    then some (cp % 2 ^ 16 ∷ [])
    else (if ltb cp 0xe000
        then none
        else (if ltb cp 0x110000
            then some (
                bit_or 0xd800 ((cp - 0x10000) / 2 ^ 10)
                ∷ bit_or 0xdc00 (bit_and (cp - 0x10000) 0x3ff)
                ∷ [])
            else none))

-- The cases 2, 3 and 4 of the switch, behind the first byte `c` with `l` leading ones.
unfoldable pub long_cp : ℕ → ℕ → List ℕ → Option (List ℕ × List ℕ)
long_cp l c s = elim (continuation (l - 1) (bit_and c (0x7f / 2 ^ l)) s) [
  | none ↦ none
  | some (cp, s') ↦
      if is_overlong l cp then none else elim (units cp) [ none ↦ none | some us ↦ some (us, s') ]
]

-- The units of the code point at the front, and the bytes behind it; `none` is the -1.
unfoldable pub validate_utf8_cp : List ℕ → Option (List ℕ × List ℕ)
unfolding next_byte
validate_utf8_cp s =
    let (c, s') = next_byte s in
    let l = l1 c in
    if l == 0
    then some (bit_and c 0x7f ∷ [], s')
    else (if l == 1 then none else (if ltb l 5 then long_cp l c s' else none))

-- `while (*u)` with fuel: each round takes a byte at least, so the length is enough.
unfoldable pub validate_loop : ℕ → List ℕ → ℕ → Option ℕ
validate_loop fuel [] i = some i
validate_loop zero (c ∷ s) i = none
validate_loop (suc fuel) (c ∷ s) i = if c == 0 then some i else elim (validate_utf8_cp (c ∷ s)) [
  | none ↦ none
  | some (us, s') ↦ validate_loop fuel s' (i + length us)
]

-- The number of UTF-16 units; `none` is the -1.
unfoldable pub validate_utf8_str : List ℕ → Option ℕ
validate_utf8_str s = validate_loop (length s) s 0

-- `while (i < len)` with fuel: each round writes a unit at least, so `len` rounds are enough. `none`
-- stands for the fuel's end, and for the branch that the code says cannot happen.
unfoldable pub fill : ℕ → ℕ → ℕ → List ℕ → Option (List ℕ)
fill zero i len s = if ltb i len then none else some []
fill (suc fuel) i len s =
    if ltb i len
    then elim (validate_utf8_cp s) [
      | none ↦ none
      | some (us, s') ↦ elim (fill fuel (i + length us) len s') [
        | none ↦ none
        | some vs ↦ some (us ++ vs)
      ]
    ]
    else some []

-- The units of a `struct smb2_utf16`; `none` is NULL.
unfoldable pub utf8_to_utf16 : List ℕ → Option (List ℕ)
utf8_to_utf16 s = elim (validate_utf8_str s) [ none ↦ none | some len ↦ fill len 0 len s ]

-- `trail - 0xdc00 < 0x400` in 32 bits.
unfoldable pub is_trail : ℕ → Bool
is_trail trail = ltb ((trail + 2 ^ 32 - 0xdc00) % 2 ^ 32) 0x400

-- The code point of a surrogate pair.
unfoldable pub join : ℕ → ℕ → ℕ
join code trail = 0x10000 + bit_and code 0x3ff * 2 ^ 10 + bit_and trail 0x3ff

-- The ladder of tests that utf16_size and smb2_utf16_to_utf8 make on a unit: one, two or three bytes
-- of UTF-8, a leading surrogate, or a trailing one with none in front of it.
pub data Kind : Type 0 where
  one two three lead stray : Kind

unfoldable pub kind : ℕ → Kind
kind code =
    if ltb code 0x80
    then one
    else (if ltb code 0x800
        then two
        else (if is_single code then three else (if ltb code 0xdc00 then lead else stray)))

unfoldable pub utf16_size : List ℕ → ℕ
utf16_size [] = 0
utf16_size (code ∷ []) = elim (kind code) [ one ↦ 1 | two ↦ 2 | three ↦ 3 | lead ↦ 3 | stray ↦ 3 ]
utf16_size (code ∷ trail ∷ us) =
    let rest = utf16_size (trail ∷ us) in
    let past = utf16_size us in
    elim (kind code) [
      | one ↦ 1 + rest
      | two ↦ 2 + rest
      | three ↦ 3 + rest
      | lead ↦
          if is_trail trail
          then (if ltb (join code trail) 0x10000 then 3 + past else 4 + past)
          else 3 + rest
      | stray ↦ 3 + rest
    ]

-- A store through a `char *`.
abbrev pub char : ℕ → ℕ
char x = x % 256

unfoldable pub two_bytes : ℕ → List ℕ
two_bytes code = char (bit_or 0xc0 (code / 2 ^ 6)) ∷ char (bit_or 0x80 (bit_and code 0x3f)) ∷ []

unfoldable pub three_bytes : ℕ → List ℕ
three_bytes code =
    char (bit_or 0xe0 (code / 2 ^ 12))
    ∷ char (bit_or 0x80 (bit_and (code / 2 ^ 6) 0x3f))
    ∷ char (bit_or 0x80 (bit_and code 0x3f))
    ∷ []

unfoldable pub four_bytes : ℕ → List ℕ
four_bytes code =
    char (bit_or 0xf0 (code / 2 ^ 18))
    ∷ char (bit_or 0x80 (bit_and (code / 2 ^ 12) 0x3f))
    ∷ char (bit_or 0x80 (bit_and (code / 2 ^ 6) 0x3f))
    ∷ char (bit_or 0x80 (bit_and code 0x3f))
    ∷ []

abbrev pub replacement : List ℕ
replacement = 0xef ∷ 0xbf ∷ 0xbd ∷ []

-- What the loop stores through `tmp`. The buffer has `utf16_size + 1` bytes, the last of them the
-- NUL that was stored first.
unfoldable pub utf16_to_utf8 : List ℕ → List ℕ
utf16_to_utf8 [] = []
utf16_to_utf8 (code ∷ []) = elim (kind code) [
  | one ↦ char code ∷ []
  | two ↦ two_bytes code
  | three ↦ three_bytes code
  | lead ↦ replacement
  | stray ↦ replacement
]
utf16_to_utf8 (code ∷ trail ∷ us) =
    let rest = utf16_to_utf8 (trail ∷ us) in
    let past = utf16_to_utf8 us in
    elim (kind code) [
      | one ↦ char code ∷ rest
      | two ↦ two_bytes code ++ rest
      | three ↦ three_bytes code ++ rest
      | lead ↦
          if is_trail trail
          then (if ltb (join code trail) 0x10000
              then three_bytes (join code trail) ++ past
              else four_bytes (join code trail) ++ past)
          else replacement ++ rest
      | stray ↦ replacement ++ rest
    ]
