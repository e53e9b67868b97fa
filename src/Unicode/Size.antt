-- ===== src/Unicode/Size.antt =====
-- utf16_size counts the bytes that smb2_utf16_to_utf8 stores.
use photo_transfer_nativesmb.Common.{ℕ, List, [], ◌∷◌, ◌≡◌, refl, length, arith}
use photo_transfer_nativesmb.Unicode.{utf16_size, utf16_to_utf8, two_bytes, three_bytes, four_bytes}

-- `smb2_utf16_to_utf8` stores exactly the `utf16_size` bytes that it allocated in front of the NUL,
-- for every list of units, paired surrogates or not.
pub length-utf16_to_utf8 : (us : List ℕ) → length (utf16_to_utf8 us) ≡ utf16_size us
unfolding utf16_to_utf8 utf16_size two_bytes three_bytes four_bytes
length-utf16_to_utf8 [] = refl
length-utf16_to_utf8 (code ∷ []) = ground arith
length-utf16_to_utf8 (code ∷ trail ∷ us) =
    ground (arith, length-utf16_to_utf8 (trail ∷ us), length-utf16_to_utf8 us)
