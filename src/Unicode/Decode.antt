-- ===== src/Unicode/Decode.antt =====
-- smb2_utf8_to_utf16 accepts exactly the UTF-8 of scalars, and returns their UTF-16.
use photo_transfer_nativesmb.Common.{
  ℕ, zero, suc, ◌+◌, ◌-◌, ◌/◌, ◌%◌, ◌≤◌, ◌<◌, ◌≡◌, ◌≢◌, refl, ◌∙◌, ap, ◌⊎◌, inl, inr, List, [], ◌∷◌,
  ◌++◌, All, arith, length, get_or, length-append, some,
}
use photo_transfer_nativesmb.Unicode.{
  validate_utf8_cp, validate_loop, validate_utf8_str, fill, utf8_to_utf16,
}
use photo_transfer_nativesmb.Unicode.Steps.{step_one, step_two, step_three, step_four}
use photo_transfer_nativesmb.Unicode.Arithmetic.{units_single, units_high, units_pair}
use photo_transfer_nativesmb.Unicode.Scalars.{IsScalar, utf8_bytes, utf16_units, utf8, utf16}
use photo_transfer_nativesmb.Unicode.Encode.{
  utf8_bytes_one, utf8_bytes_two, utf8_bytes_three, utf8_bytes_four,
}

-- The size of a scalar's range in UTF-8.
range_cases :
    (c : ℕ)
    → IsScalar c
    → (c < 0x80)
      ⊎ (0x80 ≤ c) × (c < 0x800)
      ⊎ (0x800 ≤ c) × (c < 0xd800)
      ⊎ (0xe000 ≤ c) × (c < 0x10000)
      ⊎ (0x10000 ≤ c) × (c < 0x110000)
range_cases c h = ground arith

utf16_units_one : (c : ℕ) → c < 0x10000 → utf16_units c ≡ c ∷ []
unfolding utf16_units
utf16_units_one c h = ground arith

utf16_units_two :
    (c : ℕ)
    → 0x10000 ≤ c
    → utf16_units c ≡ (0xd800 + (c - 0x10000) / 1024) ∷ (0xdc00 + c % 1024) ∷ []
unfolding utf16_units
utf16_units_two c h = ground arith

step_scalar :
    (c : ℕ) (s : List ℕ)
    → IsScalar c
    → validate_utf8_cp (utf8_bytes c ++ s) ≡ some (utf16_units c, s)
step_scalar c s h = elim (range_cases c h) [
  | inl a ↦ rw (utf8_bytes_one c a, utf16_units_one c (omega arith)) (step_one c s a)
  | inr (inl (a, b)) ↦ rw (utf8_bytes_two c a b, utf16_units_one c (omega arith)) (step_two c s a b)
  | inr (inr (inl (a, b))) ↦
      rw (utf8_bytes_three c a (omega arith), utf16_units_one c (omega arith))
        (step_three c s (c ∷ []) a (omega arith) (units_single c b))
  | inr (inr (inr (inl (a, b)))) ↦
      rw (utf8_bytes_three c (omega arith) b, utf16_units_one c b)
        (step_three c s (c ∷ []) (omega arith) b (units_high c a b))
  | inr (inr (inr (inr (a, b)))) ↦
      rw (utf8_bytes_four c a b, utf16_units_two c a) (step_four c s _ a b (units_pair c a b))
]

-- A scalar but 0 starts with a byte that is not 0, and has a unit at least.
starts_nonzero : (xs : List ℕ) → get_or xs 0 0 ≢ 0 → (b : ℕ) × (r : List ℕ) × (xs ≡ b ∷ r) × (b ≢ 0)
starts_nonzero [] h = absurd (h refl)
starts_nonzero (x ∷ xs) h = (x, xs, refl, h)

utf8_bytes_nonzero : (c : ℕ) → c ≢ 0 → get_or (utf8_bytes c) 0 0 ≢ 0
unfolding utf8_bytes
utf8_bytes_nonzero c h = ground arith

length-utf16_units : (c : ℕ) → 1 ≤ length (utf16_units c)
unfolding utf16_units
length-utf16_units c = ground arith

abbrev pub IsText : ℕ → Type 0
IsText c = IsScalar c × (c ≢ 0)

validate_loop_step :
    (xs us s' : List ℕ) (b : ℕ) (r : List ℕ) (fuel i : ℕ)
    → xs ≡ b ∷ r
    → b ≢ 0
    → validate_utf8_cp xs ≡ some (us, s')
    → length xs ≤ suc fuel
    → validate_loop (suc fuel) xs i ≡ validate_loop fuel s' (i + length us)
unfolding validate_loop
validate_loop_step xs us s' b r fuel i e nz v f = ground arith

length_rest : (xs : List ℕ) (b : ℕ) (r s : List ℕ) → xs ≡ b ∷ r → length s < length (xs ++ s)
length_rest xs b r s e = rw e (omega (arith, length-append r s))

validate_loop-utf8 :
    (cs : List ℕ) (fuel i : ℕ)
    → All IsText cs
    → length (utf8 cs) ≤ fuel
    → validate_loop fuel (utf8 cs) i ≡ some (i + length (utf16 cs))
unfolding utf8 utf16
validate_loop-utf8 [] zero i h f = unfold validate_loop in ap some (omega arith)
validate_loop-utf8 [] (suc fuel) i h f = unfold validate_loop in ap some (omega arith)
validate_loop-utf8 (c ∷ cs) zero i ((hc, nz), h) f =
    let (b, r, e, n) = starts_nonzero (utf8_bytes c) (utf8_bytes_nonzero c nz) in
    absurd (omega (arith, length_rest (utf8_bytes c) b r (utf8 cs) e))
validate_loop-utf8 (c ∷ cs) (suc fuel) i ((hc, nz), h) f =
    let (b, r, e, n) = starts_nonzero (utf8_bytes c) (utf8_bytes_nonzero c nz) in
    validate_loop_step (utf8_bytes c ++ utf8 cs) (utf16_units c) (utf8 cs) b (r ++ utf8 cs) fuel i
      (ap (λ x. x ++ utf8 cs) e) n (step_scalar c (utf8 cs) hc) f
    ∙ validate_loop-utf8 cs fuel (i + length (utf16_units c)) h
        (omega (arith, length_rest (utf8_bytes c) b r (utf8 cs) e))
    ∙ ap some (omega (arith, length-append (utf16_units c) (utf16 cs)))

fill-utf8 :
    (cs : List ℕ) (fuel i len : ℕ)
    → All IsScalar cs
    → i + length (utf16 cs) ≡ len
    → len ≤ fuel + i
    → fill fuel i len (utf8 cs) ≡ some (utf16 cs)
unfolding utf8 utf16 fill
fill-utf8 [] zero i len h e f = ground arith
fill-utf8 [] (suc fuel) i len h e f = ground arith
fill-utf8 (c ∷ cs) zero i len (hc, h) e f =
    absurd (omega (arith, length-utf16_units c, length-append (utf16_units c) (utf16 cs)))
fill-utf8 (c ∷ cs) (suc fuel) i len (hc, h) e f = ground (
  arith,
  step_scalar c (utf8 cs) hc,
  length-utf16_units c,
  length-append (utf16_units c) (utf16 cs),
  fill-utf8 cs fuel (i + length (utf16_units c)) len h,
)

pub scalars_of_text : (cs : List ℕ) → All IsText cs → All IsScalar cs
scalars_of_text [] h = tt
scalars_of_text (c ∷ cs) ((hc, _), h) = (hc, scalars_of_text cs h)

-- `smb2_utf8_to_utf16` turns the UTF-8 of any scalars but 0 into their UTF-16, and the units that
-- it writes are as many as `validate_utf8_str` counted for the allocation.
pub utf8_to_utf16-utf8 :
    (cs : List ℕ)
    → All IsText cs
    → (validate_utf8_str (utf8 cs) ≡ some (length (utf16 cs)))
      × (utf8_to_utf16 (utf8 cs) ≡ some (utf16 cs))
unfolding validate_utf8_str utf8_to_utf16
utf8_to_utf16-utf8 cs h =
    let count = validate_loop-utf8 cs (length (utf8 cs)) 0 h (omega arith) in
    let count' : validate_loop (length (utf8 cs)) (utf8 cs) 0 ≡ some (length (utf16 cs)) =
      count ∙ ap some (omega arith) in
    ground
      (arith, count', fill-utf8 cs (length (utf16 cs)) 0 (length (utf16 cs)) (scalars_of_text cs h))
