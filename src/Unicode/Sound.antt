-- ===== src/Unicode/Sound.antt =====
-- What smb2_utf8_to_utf16 accepts is UTF-8, and the two conversions are inverse to one another.
use photo_transfer_nativesmb.Common.{
  ℕ, zero, suc, ◌+◌, ◌<◌, ◌^◌, ◌≡◌, ◌≢◌, refl, sym, ◌∙◌, ap, List, [], ◌∷◌, ◌++◌, All, arith,
  length, some, Option-cases, inl, inr,
}
use mathlib.Core.Path.{subst}
use photo_transfer_nativesmb.Unicode.{
  validate_utf8_cp, validate_loop, validate_utf8_str, utf8_to_utf16, utf16_to_utf8,
}
use photo_transfer_nativesmb.Unicode.Scalars.{utf8_bytes, utf8, utf16, code_points}
use photo_transfer_nativesmb.Unicode.Inversion.{IsByte, validate_utf8_cp-Reads}
use photo_transfer_nativesmb.Unicode.Encode.{utf16_to_utf8-utf16, utf16_to_utf8-code_points}
use photo_transfer_nativesmb.Unicode.Decode.{IsText, utf8_to_utf16-utf8, scalars_of_text}

-- The bytes of a C string.
abbrev pub IsChar : ℕ → Type 0
IsChar b = IsByte b × (b ≢ 0)

bytes_of_chars : (xs : List ℕ) → All IsChar xs → All IsByte xs
bytes_of_chars [] h = tt
bytes_of_chars (x ∷ xs) ((hx, _), h) = (hx, bytes_of_chars xs h)

chars_behind : (xs ys : List ℕ) → All IsChar (xs ++ ys) → All IsChar ys
chars_behind [] ys h = h
chars_behind (x ∷ xs) ys h = chars_behind xs ys h.1

-- A string that the loop accepts, as scalars.
record IsUtf8 (s : List ℕ) : Type 0 where
  scalars : List ℕ
  text : All IsText scalars
  bytes : s ≡ utf8 scalars

validate_loop-IsUtf8 :
    (fuel : ℕ) (s : List ℕ) (i n : ℕ) → All IsChar s → validate_loop fuel s i ≡ some n → IsUtf8 s
unfolding validate_loop utf8
validate_loop-IsUtf8 fuel [] i n h e = record { scalars = []; text = tt; bytes = refl }
validate_loop-IsUtf8 zero (c ∷ s) i n h e = absurd (ground arith)
validate_loop-IsUtf8 (suc fuel) (c ∷ s) i n ((hc, nz), h) e =
    elim (Option-cases (validate_utf8_cp (c ∷ s))) [
      | inl k ↦ absurd (ground arith)
      | inr ((us, s'), k) ↦
          let r = validate_utf8_cp-Reads c s us s' hc nz (bytes_of_chars s h) k in
          let chars : All IsChar s' =
            chars_behind (utf8_bytes r.cp) s' (subst (All IsChar) r.bytes ((hc, nz), h)) in
          let rest = validate_loop-IsUtf8 fuel s' (i + length us) n chars (ground arith) in
          record {
            scalars = r.cp ∷ rest.scalars;
            text = ((r.scalar, r.nonzero), rest.text);
            bytes = r.bytes ∙ ap (λ x. utf8_bytes r.cp ++ x) rest.bytes;
          }
    ]

-- Strings that `smb2_utf8_to_utf16` accepts are UTF-8 of scalars other than 0, and what it returns
-- is the UTF-16 of those scalars: overlong forms, surrogates, values past U+10FFFF, stray and
-- missing continuation bytes are all refused.
pub utf8_to_utf16_sound :
    (s us : List ℕ)
    → All IsChar s
    → utf8_to_utf16 s ≡ some us
    → (cs : List ℕ) × All IsText cs × (s ≡ utf8 cs) × (us ≡ utf16 cs)
unfolding utf8_to_utf16 validate_utf8_str
utf8_to_utf16_sound s us h e = elim (Option-cases (validate_loop (length s) s 0)) [
  | inl k ↦ absurd (ground arith)
  | inr (n, k) ↦
      let v = validate_loop-IsUtf8 (length s) s 0 n h k in
      let back : utf8_to_utf16 s ≡ some (utf16 v.scalars) =
        ap utf8_to_utf16 v.bytes ∙ (utf8_to_utf16-utf8 v.scalars v.text).1 in
      (v.scalars, v.text, v.bytes, cc back)
]

-- A string that `smb2_utf8_to_utf16` accepts is what `smb2_utf16_to_utf8` makes of the result.
pub utf16_to_utf8-utf8_to_utf16 :
    (s us : List ℕ) → All IsChar s → utf8_to_utf16 s ≡ some us → utf16_to_utf8 us ≡ s
utf16_to_utf8-utf8_to_utf16 s us h e =
    let (cs, text, bytes, units) = utf8_to_utf16_sound s us h e in
    ap utf16_to_utf8 units ∙ utf16_to_utf8-utf16 cs (scalars_of_text cs text) ∙ sym bytes

code_points-IsText :
    (us : List ℕ) → All (λ u. (u < 2 ^ 16) × (u ≢ 0)) us → All IsText (code_points us)
unfolding code_points
code_points-IsText [] h = tt
code_points-IsText (u ∷ []) h = ground arith
code_points-IsText (u ∷ t ∷ us) (hu, (ht, h)) =
    ground (arith, code_points-IsText (t ∷ us) (ht, h), code_points-IsText us h)

units_bounded : (us : List ℕ) → All (λ u. (u < 2 ^ 16) × (u ≢ 0)) us → All (λ u. u < 2 ^ 16) us
units_bounded [] h = tt
units_bounded (u ∷ us) ((hu, _), h) = (hu, units_bounded us h)

-- Whatever units but NUL a server sends, `smb2_utf16_to_utf8` makes of them a string that
-- `smb2_utf8_to_utf16` accepts, and turns into the units again with U+FFFD in place of each
-- surrogate that was not paired.
pub utf8_to_utf16-utf16_to_utf8 :
    (us : List ℕ)
    → All (λ u. (u < 2 ^ 16) × (u ≢ 0)) us
    → utf8_to_utf16 (utf16_to_utf8 us) ≡ some (utf16 (code_points us))
utf8_to_utf16-utf16_to_utf8 us h =
    ap utf8_to_utf16 (utf16_to_utf8-code_points us (units_bounded us h))
    ∙ (utf8_to_utf16-utf8 (code_points us) (code_points-IsText us h)).1
