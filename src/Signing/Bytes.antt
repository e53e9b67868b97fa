-- ===== src/Signing/Bytes.antt =====
-- Buffers: what a second write hides, and what a write leaves alone.
use photo_transfer_nativesmb.Common.{
  ℕ, zero, suc, ◌+◌, ◌*◌, ◌≤◌, ◌<◌, ◌≡◌, ◌≢◌, refl, ap, ◌∙◌, List, [], ◌∷◌, length, arith, some,
  none, ltb, set, if◌then◌else◌,
}
use mathlib.Core.Path.{ap₂}
use photo_transfer_nativesmb.Wire.{Iovec, put_bytes, get_bytes, get_uint, get_le}
use photo_transfer_nativesmb.Asn1.Output.{put_bytes_below}

set_twice : (b : List ℕ) (i x y : ℕ) → set (set b i x) i y ≡ set b i y
set_twice [] i x y = refl
set_twice (z ∷ b) zero x y = refl
set_twice (z ∷ b) (suc i) x y = ap (λ c. z ∷ c) (set_twice b i x y)

set_swap : (b : List ℕ) (i j x y : ℕ) → i ≢ j → set (set b i x) j y ≡ set (set b j y) i x
set_swap [] i j x y h = refl
set_swap (z ∷ b) zero zero x y h = absurd (h refl)
set_swap (z ∷ b) zero (suc j) x y h = refl
set_swap (z ∷ b) (suc i) zero x y h = refl
set_swap (z ∷ b) (suc i) (suc j) x y h = ap (λ c. z ∷ c) (set_swap b i j x y (λ e. h (ap suc e)))

set-put_bytes :
    (b : List ℕ) (i : ℕ) (xs : List ℕ) (j y : ℕ)
    → j < i
    → set (put_bytes b i xs) j y ≡ put_bytes (set b j y) i xs
unfolding put_bytes
set-put_bytes b i [] j y h = refl
set-put_bytes b i (x ∷ xs) j y h =
    set-put_bytes (set b i x) (i + 1) xs j y (omega arith)
    ∙ ap (λ c. put_bytes c (i + 1) xs) (set_swap b i j x y (omega arith))

-- What is put over something else of the same length hides it.
pub put_bytes-put_bytes :
    (b : List ℕ) (i : ℕ) (xs ys : List ℕ)
    → length xs ≡ length ys
    → put_bytes (put_bytes b i xs) i ys ≡ put_bytes b i ys
unfolding put_bytes
put_bytes-put_bytes b i [] [] h = refl
put_bytes-put_bytes b i [] (y ∷ ys) h = absurd (omega (arith, h))
put_bytes-put_bytes b i (x ∷ xs) [] h = absurd (omega (arith, h))
put_bytes-put_bytes b i (x ∷ xs) (y ∷ ys) h =
    ap (λ c. put_bytes c (i + 1) ys)
      (set-put_bytes (set b i x) (i + 1) xs i y (omega arith)
        ∙ ap (λ c. put_bytes c (i + 1) xs) (set_twice b i x y))
    ∙ put_bytes-put_bytes (set b i y) (i + 1) xs ys (omega (arith, h))

pub length-get_bytes : (n : ℕ) (b : List ℕ) (i : ℕ) → length (get_bytes n b i) ≡ n
unfolding get_bytes
length-get_bytes zero b i = refl
length-get_bytes (suc n) b i = ap suc (length-get_bytes n b (i + 1))

-- What is put behind a field leaves it alone.
get_le-put_bytes :
    (n : ℕ) (b : List ℕ) (i j : ℕ) (xs : List ℕ)
    → i + n ≤ j
    → get_le n (put_bytes b j xs) i ≡ get_le n b i
unfolding get_le
get_le-put_bytes zero b i j xs h = refl
get_le-put_bytes (suc n) b i j xs h =
    ap₂ (λ (x y : ℕ). x + 256 * y) (put_bytes_below b j xs i (omega arith))
      (get_le-put_bytes n b (i + 1) j xs (omega arith))

pub get_uint-put_bytes :
    (n i j : ℕ) (io : Iovec) (xs : List ℕ)
    → i + n ≤ j
    → get_uint n (record io { buf = put_bytes io.buf j xs }) i ≡ get_uint n io i
unfolding get_uint
get_uint-put_bytes n i j io xs h =
    ap (λ (v : ℕ). if ltb io.len (i + n) then none else some v) (get_le-put_bytes n io.buf i j xs h)
