-- ===== src/Asn1/Output.antt =====
-- The writer's context as the bytes that were written: a call that emits bytes stores them behind
-- the others and moves the head past them.
use photo_transfer_nativesmb.Common.{
  ℕ, ◌+◌, ◌≤◌, ◌<◌, ◌≡◌, refl, sym, ap, ◌∙◌, List, [], ◌∷◌, ◌++◌, length, length-append, length-set,
  get_or, get_or-set_self, get_or-set_ne, set, arith, some,
}
use mathlib.Core.Path.{ap₂}
use photo_transfer_nativesmb.Wire.{get_bytes, put_bytes}
use photo_transfer_nativesmb.Asn1.{
  Ber, Outcome, done, failed, diverged, M, ◌>>=◌, ◌>>◌, return, out_byte,
}

-- The destination `d` has room for `n` more bytes.
pub record HasRoom (a : Ber) (d : List ℕ) (n : ℕ) : Type 0 where
  pub is_dst : a.dst ≡ some d
  pub fits : a.dst_head + n ≤ a.dst_size
  pub backed : a.dst_size ≤ length d

abbrev pub appended : Ber → List ℕ → List ℕ → Ber
appended a d bs = record a {
  dst = some (put_bytes d a.dst_head bs);
  dst_head = a.dst_head + length bs;
}

-- With room for the bytes `bs` the call returns `x` and writes them, and does nothing else.
abbrev pub Emits : {A : Type 0} → M A → A → List ℕ → Type 0
Emits m x bs = (a : Ber) (d : List ℕ) → HasRoom a d (length bs) → m a ≡ (done x, appended a d bs)

pub length-put_bytes : (d : List ℕ) (i : ℕ) (bs : List ℕ) → length (put_bytes d i bs) ≡ length d
unfolding put_bytes
length-put_bytes d i [] = refl
length-put_bytes d i (b ∷ bs) = length-put_bytes (set d i b) (i + 1) bs ∙ length-set d i b

put_bytes-append :
    (d : List ℕ) (i : ℕ) (xs ys : List ℕ)
    → put_bytes d i (xs ++ ys) ≡ put_bytes (put_bytes d i xs) (i + length xs) ys
unfolding put_bytes
put_bytes-append d i [] ys = ap (λ k. put_bytes d k ys) (omega arith)
put_bytes-append d i (x ∷ xs) ys =
    put_bytes-append (set d i x) (i + 1) xs ys
    ∙ ap (λ k. put_bytes (put_bytes (set d i x) (i + 1) xs) k ys) (omega arith)

pub put_bytes_below :
    (d : List ℕ) (i : ℕ) (bs : List ℕ) (j : ℕ)
    → j < i
    → get_or (put_bytes d i bs) j 0 ≡ get_or d j 0
unfolding put_bytes
put_bytes_below d i [] j h = refl
put_bytes_below d i (b ∷ bs) j h =
    put_bytes_below (set d i b) (i + 1) bs j (omega arith) ∙ get_or-set_ne d i j b 0 (omega arith)

pub Emits-return : {A : Type 0} (x : A) → Emits (return x) x []
unfolding put_bytes
Emits-return x a d r = λ i. (done x, record a { dst = r.is_dst i; dst_head = plus_zero i })
  where
    plus_zero : a.dst_head ≡ a.dst_head + 0
    plus_zero = omega arith

-- A call that returns hands its value and its context on; one that fails stops the chain.
pub bind-done :
    {A B : Type 0} (m : M A) (f : A → M B) (a : Ber) (x : A) (a' : Ber)
    → m a ≡ (done x, a')
    → (m >>= f) a ≡ f x a'
bind-done {B = B} m f a x a' h =
    ap
      (λ p. elim p.0 as (λ _. Outcome B × Ber) [
        | done y ↦ f y p.1
        | failed ↦ (failed, p.1)
        | diverged ↦ (diverged, p.1)
      ])
      h

-- A chain that returns has had a first call that returned.
pub bind_inv :
    {A B : Type 0} (m : M A) (f : A → M B) (a : Ber) (y : B) (a' : Ber)
    → (m >>= f) a ≡ (done y, a')
    → (x : A) × (a1 : Ber) × (m a ≡ (done x, a1)) × (f x a1 ≡ (done y, a'))
bind_inv {A = A} {B = B} m f a y a' e = go (m a) refl
  where
    run : Outcome A × Ber → Outcome B × Ber
    run p = elim p.0 as (λ _. Outcome B × Ber) [
      | done z ↦ f z p.1
      | failed ↦ (failed, p.1)
      | diverged ↦ (diverged, p.1)
    ]

    go :
        (p : Outcome A × Ber)
        → m a ≡ p
        → (x : A) × (a1 : Ber) × (m a ≡ (done x, a1)) × (f x a1 ≡ (done y, a'))
    go (done x, a1) k = (x, a1, k, sym (ap run k) ∙ e)
    go (failed, a1) k = absurd (never (sym (ap run k) ∙ e))
      where
        never : ◌≡◌ {A = Outcome B × Ber} (failed, a1) (done y, a') → ⊥
        never h = cc
    go (diverged, a1) k = absurd (never (sym (ap run k) ∙ e))
      where
        never : ◌≡◌ {A = Outcome B × Ber} (diverged, a1) (done y, a') → ⊥
        never h = cc

pub Emits-bind :
    {A B : Type 0} (m : M A) (f : A → M B) (x : A) (y : B) (xs ys : List ℕ)
    → Emits m x xs
    → Emits (f x) y ys
    → Emits (m >>= f) y (xs ++ ys)
Emits-bind {B = B} m f x y xs ys hm hf a d r =
    bind-done m f a x (appended a d xs) (hm a d room_first)
    ∙ hf (appended a d xs) (put_bytes d a.dst_head xs) room_second
    ∙ joined
  where
    joined :
        ◌≡◌ {A = Outcome B × Ber}
          (done y, appended (appended a d xs) (put_bytes d a.dst_head xs) ys)
          (done y, appended a d (xs ++ ys))
    joined =
        ap₂ (λ t h. (done y, record a { dst = some t; dst_head = h }))
          (sym (put_bytes-append d a.dst_head xs ys)) (omega (arith, length-append xs ys))

    room_first : HasRoom a d (length xs)
    room_first = record {
      is_dst = r.is_dst;
      fits = omega (arith, r.fits, length-append xs ys);
      backed = r.backed;
    }

    room_second : HasRoom (appended a d xs) (put_bytes d a.dst_head xs) (length ys)
    room_second = record {
      is_dst = refl;
      fits = omega (arith, r.fits, length-append xs ys);
      backed = omega (arith, r.backed, length-put_bytes d a.dst_head xs);
    }

pub Emits-out_byte : (b : ℕ) → Emits (out_byte b) tt (b ∷ [])
unfolding out_byte put_bytes
Emits-out_byte b a d r = ground (arith, r.is_dst, r.fits)

-- What was written is what stands in front of the head.
pub get_bytes-put_bytes :
    (d : List ℕ) (i : ℕ) (bs : List ℕ)
    → i + length bs ≤ length d
    → get_bytes (length bs) (put_bytes d i bs) i ≡ bs
unfolding get_bytes put_bytes
get_bytes-put_bytes d i [] h = refl
get_bytes-put_bytes d i (b ∷ bs) h =
    ap₂ ◌∷◌
      (put_bytes_below (set d i b) (i + 1) bs i (omega arith)
        ∙ get_or-set_self d i b 0 (omega arith))
      (get_bytes-put_bytes (set d i b) (i + 1) bs (omega (arith, length-set d i b)))

pub Emits-then :
    {B : Type 0} (m : M (Unit {0})) (k : M B) (y : B) (xs ys : List ℕ)
    → Emits m tt xs
    → Emits k y ys
    → Emits (m >> k) y (xs ++ ys)
Emits-then m k y xs ys hm hk = Emits-bind m (λ _. k) tt y xs ys hm hk
