-- ===== src/Commands/Lookup.antt =====
-- A body holds at each place what the last write there put: the reads of a parser, by the list of
-- the writes of an encoder.
use photo_transfer_nativesmb.Common.{
  ℕ, zero, suc, ◌+◌, ◌*◌, ◌^◌, ◌≤◌, ◌<◌, ◌≡◌, ◌⊎◌, refl, ap, sym, ◌∙◌, List, [], ◌∷◌, Bool, true,
  ◌&&◌, ◌||◌, ◌==◌, leb, length, set, get_or, if◌then◌else◌, Option, none, some, replicate, arith,
  get_or-set_ne, inl, inr, Bool_cases, Bool_cases,
}
use mathlib.Core.Path.{ap₂}
use photo_transfer_nativesmb.Wire.{Iovec, put_bytes, get_bytes, get_le, set_uint, get_uint}
use photo_transfer_nativesmb.Wire.Access.{length-put_le, get_or-put_le_ne, get_le-put_le_self}
use photo_transfer_nativesmb.Asn1.Output.{length-put_bytes, get_bytes-put_bytes}
use photo_transfer_nativesmb.Signing.Bytes.{length-get_bytes}
use photo_transfer_nativesmb.Commands.Fields.{
  Field, uint, bytes, write_field, write_fields, body, read_field, is_sized,
}

abbrev pub is_apart : ℕ → ℕ → ℕ → ℕ → Bool
is_apart i m j n = leb (i + m) j || leb (j + n) i

&&-cases : (a b : Bool) → (a && b) ≡ true → (a ≡ true) × (b ≡ true)
&&-cases a b h = ground arith

-- No field of the list touches the `n` bytes from `off` on.
abbrev pub is_clear : List Field → ℕ → ℕ → Bool
is_clear [] n off = true
is_clear (uint m o v ∷ fs) n off = is_apart o m off n && is_clear fs n off
is_clear (bytes m o xs ∷ fs) n off = is_apart o m off n && is_clear fs n off

-- What the last write of that width at that place put, unless another has touched it since.
abbrev pub uint_at : List Field → ℕ → ℕ → Option ℕ
uint_at [] n off = none
uint_at (uint m o v ∷ fs) n off =
    let rest = uint_at fs n off in
    if m == n && (o == off && is_clear fs n off) then some v else rest
uint_at (bytes m o xs ∷ fs) n off = uint_at fs n off

abbrev pub bytes_at : List Field → ℕ → ℕ → Option (List ℕ)
bytes_at [] n off = none
bytes_at (bytes m o xs ∷ fs) n off =
    let rest = bytes_at fs n off in
    if m == n && (o == off && is_clear fs n off) then some xs else rest
bytes_at (uint m o v ∷ fs) n off = bytes_at fs n off

pub get_or-put_bytes_ne :
    (b : List ℕ) (off : ℕ) (xs : List ℕ) (i : ℕ)
    → (i < off) ⊎ (off + length xs ≤ i)
    → get_or (put_bytes b off xs) i 0 ≡ get_or b i 0
unfolding put_bytes
get_or-put_bytes_ne b off [] i h = refl
get_or-put_bytes_ne b off (x ∷ xs) i h =
    get_or-put_bytes_ne (set b off x) (off + 1) xs i (omega (arith, h))
    ∙ get_or-set_ne b off i x 0 (omega (arith, h))

-- Two buffers that agree on `n` bytes from `off` on.
abbrev pub Agree : ℕ → ℕ → List ℕ → List ℕ → Type 0
Agree n off b' b = (j : ℕ) → off ≤ j → j < off + n → get_or b' j 0 ≡ get_or b j 0

get_le_same : (n off : ℕ) (b' b : List ℕ) → Agree n off b' b → get_le n b' off ≡ get_le n b off
unfolding get_le
get_le_same zero off b' b h = refl
get_le_same (suc n) off b' b h =
    ap₂ (λ (x y : ℕ). x + 256 * y) (h off (omega arith) (omega arith))
      (get_le_same n (off + 1) b' b (λ j l u. h j (omega (arith, l)) (omega (arith, u))))

pub get_bytes_same :
    (n off : ℕ) (b' b : List ℕ) → Agree n off b' b → get_bytes n b' off ≡ get_bytes n b off
unfolding get_bytes
get_bytes_same zero off b' b h = refl
get_bytes_same (suc n) off b' b h =
    ap₂ ◌∷◌ (h off (omega arith) (omega arith))
      (get_bytes_same n (off + 1) b' b (λ j l u. h j (omega (arith, l)) (omega (arith, u))))

is_apart_cases : (i m j n : ℕ) → is_apart i m j n ≡ true → (i + m ≤ j) ⊎ (j + n ≤ i)
is_apart_cases i m j n h = ground arith

write_field_len : (iov : Iovec) (f : Field) → (write_field iov f).len ≡ iov.len
unfolding write_field set_uint
write_field_len iov (uint m o v) = ground arith
write_field_len iov (bytes m o xs) = refl

write_field_size : (iov : Iovec) (f : Field) → length (write_field iov f).buf ≡ length iov.buf
unfolding write_field set_uint
write_field_size iov (uint m o v) = ground (arith, length-put_le m iov.buf o v)
write_field_size iov (bytes m o xs) = length-put_bytes iov.buf o (get_bytes m xs 0)

pub write_fields_len :
    (iov : Iovec) (fs : List Field)
    → ((write_fields iov fs).len ≡ iov.len) × (length (write_fields iov fs).buf ≡ length iov.buf)
unfolding write_fields
write_fields_len iov [] = (refl, refl)
write_fields_len iov (f ∷ fs) =
    let (l, s) = write_fields_len (write_field iov f) fs in
    (l ∙ write_field_len iov f, s ∙ write_field_size iov f)

set_uint_ne :
    (iov : Iovec) (m o v j : ℕ)
    → (j < o) ⊎ (o + m ≤ j)
    → get_or (set_uint m iov o v).1.buf j 0 ≡ get_or iov.buf j 0
unfolding set_uint
set_uint_ne iov m o v j h = ground (arith, get_or-put_le_ne m iov.buf o v j h)

-- The fields leave alone what they do not touch.
write_fields_clear :
    (iov : Iovec) (fs : List Field) (n off : ℕ)
    → is_clear fs n off ≡ true
    → Agree n off (write_fields iov fs).buf iov.buf
unfolding write_fields write_field
write_fields_clear iov [] n off h j l u = refl
write_fields_clear iov (uint m o v ∷ fs) n off h j l u =
    let (here, there) = &&-cases (is_apart o m off n) (is_clear fs n off) h in
    write_fields_clear (set_uint m iov o v).1 fs n off there j l u
    ∙ set_uint_ne iov m o v j (omega (arith, is_apart_cases o m off n here))
write_fields_clear iov (bytes m o xs ∷ fs) n off h j l u =
    let (here, there) = &&-cases (is_apart o m off n) (is_clear fs n off) h in
    write_fields_clear (record iov { buf = put_bytes iov.buf o (get_bytes m xs 0) }) fs n off there
      j l u
    ∙ get_or-put_bytes_ne iov.buf o (get_bytes m xs 0) j
        (omega (arith, is_apart_cases o m off n here, length-get_bytes m xs 0))

-- A number that fits its field is read where `uint_at` says.
get_le-write_fields :
    (iov : Iovec) (fs : List Field) (n off v : ℕ)
    → off + n ≤ iov.len
    → iov.len ≤ length iov.buf
    → v < 256 ^ n
    → uint_at fs n off ≡ some v
    → get_le n (write_fields iov fs).buf off ≡ v
unfolding write_fields write_field
get_le-write_fields iov [] n off v fits backed small h = cc
get_le-write_fields iov (bytes m o xs ∷ fs) n off v fits backed small h =
    get_le-write_fields (write_field iov (bytes m o xs)) fs n off v fits
      (omega (arith, write_field_size iov (bytes m o xs))) small h
get_le-write_fields iov (uint m o w ∷ fs) n off v fits backed small h =
    elim (Bool_cases (m == n && (o == off && is_clear fs n off))) [
      | inr e ↦
          get_le-write_fields (set_uint m iov o w).1 fs n off v
            (omega (arith, write_field_len iov (uint m o w), fits))
            (omega
              (arith, write_field_size iov (uint m o w), write_field_len iov (uint m o w), backed))
            small (ground (arith, e, h))
      | inl e ↦
          let last : (m ≡ n) × (o ≡ off) × (is_clear fs n off ≡ true) × (w ≡ v) =
            ground (arith, e, h) in
          get_le_same n off (write_fields (set_uint m iov o w).1 fs).buf (set_uint m iov o w).1.buf
            (write_fields_clear (set_uint m iov o w).1 fs n off last.2)
          ∙ unfold set_uint in
            ground
              (arith, last, get_le-put_le_self n iov.buf off v (omega (arith, fits, backed)) small)
    ]

-- A field of bytes, of the length that is copied.
get_bytes-write_fields :
    (iov : Iovec) (fs : List Field) (n off : ℕ) (xs : List ℕ)
    → off + n ≤ length iov.buf
    → bytes_at fs n off ≡ some xs
    → get_bytes n (write_fields iov fs).buf off ≡ get_bytes n xs 0
unfolding write_fields write_field
get_bytes-write_fields iov [] n off xs fits h = cc
get_bytes-write_fields iov (uint m o w ∷ fs) n off xs fits h =
    get_bytes-write_fields (set_uint m iov o w).1 fs n off xs
      (omega (arith, write_field_size iov (uint m o w))) h
get_bytes-write_fields iov (bytes m o ys ∷ fs) n off xs fits h =
    let copy = get_bytes m ys 0 in
    let iov' : Iovec = record iov { buf = put_bytes iov.buf o copy } in
    elim (Bool_cases (m == n && (o == off && is_clear fs n off))) [
      | inr e ↦
          get_bytes-write_fields iov' fs n off xs
            (omega (arith, length-put_bytes iov.buf o copy, fits)) (ground (arith, e, h))
      | inl e ↦
          let last : (m ≡ n) × (o ≡ off) × (is_clear fs n off ≡ true) × (ys ≡ xs) =
            ground (arith, e, h) in
          get_bytes_same n off (write_fields iov' fs).buf iov'.buf
            (write_fields_clear iov' fs n off last.2)
          ∙ ground (
            arith,
            last,
            length-get_bytes m ys 0,
            get_bytes-put_bytes iov.buf o copy
                (omega (arith, fits, last.0, last.1, length-get_bytes m ys 0)),
          )
    ]

length-replicate : (n v : ℕ) → length (replicate n v) ≡ n
length-replicate zero v = refl
length-replicate (suc n) v = ap suc (length-replicate n v)

next : (off : ℕ) → suc off + 1 ≡ suc (off + 1)
next off = omega arith

get_bytes_tail :
    (n : ℕ) (x : ℕ) (xs : List ℕ) (off : ℕ) → get_bytes n (x ∷ xs) (suc off) ≡ get_bytes n xs off
unfolding get_bytes
get_bytes_tail zero x xs off = refl
get_bytes_tail (suc n) x xs off =
    ap (λ ys. get_or xs off 0 ∷ ys)
      (ap (λ k. get_bytes n (x ∷ xs) k) (next off) ∙ get_bytes_tail n x xs (off + 1))

-- All bytes of a list.
pub get_bytes_all : (xs : List ℕ) → get_bytes (length xs) xs 0 ≡ xs
unfolding get_bytes
get_bytes_all [] = refl
get_bytes_all (x ∷ xs) = ap (λ ys. x ∷ ys) (get_bytes_tail (length xs) x xs 0 ∙ get_bytes_all xs)

-- The part of a body that is received for its fixed part.
abbrev pub cut : ℕ → Iovec → Iovec
cut k io = record io { len = k }

-- The reads of a parser from the first `k` bytes of the body of an encoder.
module _ (k len : ℕ) (fs : List Field) (within : k ≤ len) where
  pub get_uint-body :
      (n off v : ℕ)
      → off + n ≤ k
      → v < 256 ^ n
      → uint_at fs n off ≡ some v
      → get_uint n (cut k (body len fs)) off ≡ some v
  unfolding body get_uint
  get_uint-body n off v fits small h =
      let blank : Iovec = record { buf = replicate len 0; len = len } in
      ground (
        arith,
        fits,
        get_le-write_fields blank fs n off v (omega (arith, fits, within))
            (omega (arith, length-replicate len 0)) small h,
      )

  pub read_field-body :
      (n off v : ℕ)
      → off + n ≤ k
      → v < 256 ^ n
      → uint_at fs n off ≡ some v
      → read_field n (cut k (body len fs)) off ≡ v
  unfolding read_field
  read_field-body n off v fits small h = ground (arith, get_uint-body n off v fits small h)

  pub get_bytes-body :
      (n off : ℕ) (xs : List ℕ)
      → off + n ≤ k
      → bytes_at fs n off ≡ some xs
      → length xs ≡ n
      → get_bytes n (body len fs).buf off ≡ xs
  unfolding body
  get_bytes-body n off xs fits h size =
      get_bytes-write_fields (record { buf = replicate len 0; len = len }) fs n off xs
        (omega (arith, length-replicate len 0, fits, within)) h
      ∙ ap (λ (j : ℕ). get_bytes j xs 0) (sym size)
      ∙ get_bytes_all xs

get_or-replicate : (n j : ℕ) → get_or (replicate {A = ℕ} n 0) j 0 ≡ 0
get_or-replicate zero j = refl
get_or-replicate (suc n) zero = refl
get_or-replicate (suc n) (suc j) = get_or-replicate n j

get_le_zeros : (n len off : ℕ) → get_le n (replicate len 0) off ≡ 0
unfolding get_le
get_le_zeros zero len off = refl
get_le_zeros (suc n) len off = omega (arith, get_or-replicate len off, get_le_zeros n len (off + 1))

-- A place that no field touches holds zeros.
pub read_field_clear :
    (k len : ℕ) (fs : List Field) (n off : ℕ)
    → is_clear fs n off ≡ true
    → read_field n (cut k (body len fs)) off ≡ 0
unfolding read_field get_uint body
read_field_clear k len fs n off h =
    let blank : Iovec = record { buf = replicate len 0; len = len } in
    ground (
      arith,
      get_le_same n off (write_fields blank fs).buf blank.buf (write_fields_clear blank fs n off h),
      get_le_zeros n len off,
    )

-- The bodies of four bytes have their size.
pub empty_sized : is_sized 4 (cut 4 (body 4 (uint 2 0 4 ∷ []))) ≡ true
unfolding is_sized
empty_sized = ground (
  arith,
  get_uint-body 4 4 (uint 2 0 4 ∷ []) (omega arith) 2 0 4 (omega arith) (omega arith) refl,
)
