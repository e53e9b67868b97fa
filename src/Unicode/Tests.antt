-- ===== src/Unicode/Tests.antt =====
-- Runs of the conversions, and their theorems at concrete inputs.
use photo_transfer_nativesmb.Common.{ℕ, ◌≡◌, refl, List, [], ◌∷◌, All, length, some, none, arith}
use photo_transfer_nativesmb.Unicode.{
  validate_utf8_cp, validate_loop, validate_utf8_str, fill, utf8_to_utf16, utf16_to_utf8,
  utf16_size, long_cp, l1, continuation, units, is_single, kind, is_trail, join, two_bytes,
  three_bytes, four_bytes,
}
use photo_transfer_nativesmb.Unicode.Scalars.{utf8, utf16, code_points}
use photo_transfer_nativesmb.Unicode.Size.{length-utf16_to_utf8}
use photo_transfer_nativesmb.Unicode.Encode.{utf16_to_utf8-code_points}
use photo_transfer_nativesmb.Unicode.Decode.{IsText, utf8_to_utf16-utf8}
use photo_transfer_nativesmb.Unicode.Sound.{
  utf8_to_utf16_sound, utf16_to_utf8-utf8_to_utf16, utf8_to_utf16-utf16_to_utf8,
}

-- "aé€" and U+1F600, as bytes and as units.
abbrev text : List ℕ
text = b'a' ∷ 0xc3 ∷ 0xa9 ∷ 0xe2 ∷ 0x82 ∷ 0xac ∷ 0xf0 ∷ 0x9f ∷ 0x98 ∷ 0x80 ∷ []

abbrev text_units : List ℕ
text_units = b'a' ∷ 0xe9 ∷ 0x20ac ∷ 0xd83d ∷ 0xde00 ∷ []

abbrev text_scalars : List ℕ
text_scalars = b'a' ∷ 0xe9 ∷ 0x20ac ∷ 0x1f600 ∷ []

text_to_utf16 : utf8_to_utf16 text ≡ some text_units
unfolding utf8_to_utf16 validate_utf8_str validate_loop fill validate_utf8_cp l1 long_cp
    continuation units is_single
text_to_utf16 = refl

text_to_utf8 : utf16_to_utf8 text_units ≡ text
unfolding utf16_to_utf8 kind is_single is_trail join two_bytes three_bytes four_bytes
text_to_utf8 = refl

-- An overlong slash, and a surrogate in UTF-8.
refused :
    (utf8_to_utf16 (0xc0 ∷ 0xaf ∷ []) ≡ none) × (utf8_to_utf16 (0xed ∷ 0xa0 ∷ 0x80 ∷ []) ≡ none)
unfolding utf8_to_utf16 validate_utf8_str validate_loop fill validate_utf8_cp l1 long_cp
    continuation units is_single
refused = (refl, refl)

length-utf16_to_utf8_example : length (utf16_to_utf8 text_units) ≡ utf16_size text_units
length-utf16_to_utf8_example = length-utf16_to_utf8 text_units

utf16_to_utf8-code_points_example :
    utf16_to_utf8 (0xd83d ∷ b'a' ∷ []) ≡ utf8 (code_points (0xd83d ∷ b'a' ∷ []))
utf16_to_utf8-code_points_example = utf16_to_utf8-code_points (0xd83d ∷ b'a' ∷ []) (omega arith)

utf8_to_utf16-utf8_example :
    (validate_utf8_str (utf8 text_scalars) ≡ some (length (utf16 text_scalars)))
    × (utf8_to_utf16 (utf8 text_scalars) ≡ some (utf16 text_scalars))
utf8_to_utf16-utf8_example = utf8_to_utf16-utf8 text_scalars (ground arith)

utf8_to_utf16_sound_example :
    (cs : List ℕ) × All IsText cs × (text ≡ utf8 cs) × (text_units ≡ utf16 cs)
utf8_to_utf16_sound_example = utf8_to_utf16_sound text text_units (ground arith) text_to_utf16

utf16_to_utf8-utf8_to_utf16_example : utf16_to_utf8 text_units ≡ text
utf16_to_utf8-utf8_to_utf16_example =
    utf16_to_utf8-utf8_to_utf16 text text_units (ground arith) text_to_utf16

utf8_to_utf16-utf16_to_utf8_example :
    utf8_to_utf16 (utf16_to_utf8 (0xd83d ∷ b'a' ∷ []))
    ≡ some (utf16 (code_points (0xd83d ∷ b'a' ∷ [])))
utf8_to_utf16-utf16_to_utf8_example =
    utf8_to_utf16-utf16_to_utf8 (0xd83d ∷ b'a' ∷ []) (ground arith)
