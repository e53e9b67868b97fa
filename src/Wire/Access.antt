-- ===== src/Wire/Access.antt =====
-- A field that a setter wrote is read back, and the fields beside it are left alone.
use photo_transfer_nativesmb.Common.{
  ℕ, zero, suc, ◌+◌, ◌*◌, ◌/◌, ◌%◌, ◌^◌, ◌≤◌, ◌<◌, ◌≡◌, refl, ◌⊎◌, ◌∙◌, List, length, get_or, set,
  length-set, get_or-set_self, get_or-set_ne, arith, some, none,
}
use photo_transfer_nativesmb.Wire.{Iovec, ok, fail, put_le, get_le, set_uint, get_uint}
use native.Mathlib.Nat.{pow-suc}

pub length-put_le : (n : ℕ) (b : List ℕ) (off v : ℕ) → length (put_le n b off v) ≡ length b
unfolding put_le
length-put_le zero b off v = refl
length-put_le (suc n) b off v =
    length-put_le n (set b off (v % 256)) (off + 1) (v / 256) ∙ length-set b off (v % 256)

-- A byte outside the field keeps its value.
pub get_or-put_le_ne :
    (n : ℕ) (b : List ℕ) (off v i : ℕ)
    → (i < off) ⊎ (off + n ≤ i)
    → get_or (put_le n b off v) i 0 ≡ get_or b i 0
unfolding put_le
get_or-put_le_ne zero b off v i h = refl
get_or-put_le_ne (suc n) b off v i h =
    get_or-put_le_ne n (set b off (v % 256)) (off + 1) (v / 256) i (omega arith)
    ∙ get_or-set_ne b off i (v % 256) 0 (omega arith)

pub get_le-put_le_ne :
    (m n : ℕ) (b : List ℕ) (off v i : ℕ)
    → (i + m ≤ off) ⊎ (off + n ≤ i)
    → get_le m (put_le n b off v) i ≡ get_le m b i
unfolding get_le
get_le-put_le_ne zero n b off v i h = refl
get_le-put_le_ne (suc m) n b off v i h = omega (
  arith,
  get_or-put_le_ne n b off v i (omega arith),
  get_le-put_le_ne m n b off v (i + 1) (omega arith),
)

pub get_le-put_le_self :
    (n : ℕ) (b : List ℕ) (off v : ℕ)
    → off + n ≤ length b
    → v < 256 ^ n
    → get_le n (put_le n b off v) off ≡ v
unfolding get_le put_le
get_le-put_le_self zero b off v h hv = omega arith
get_le-put_le_self (suc n) b off v h hv =
    let hv' : v < 256 ^ n * 256 = rw (← pow-suc 256 n) hv in
    omega (
      arith,
      get_or-put_le_ne n (set b off (v % 256)) (off + 1) (v / 256) off (omega arith),
      get_or-set_self b off (v % 256) 0 (omega arith),
      get_le-put_le_self n (set b off (v % 256)) (off + 1) (v / 256)
          (omega (arith, length-set b off (v % 256))) (omega arith),
    )

-- `len` bytes of `buf` can be reached.
abbrev pub IsBacked : Iovec → Type 0
IsBacked iov = iov.len ≤ length iov.buf

-- A setter of width `n` either writes a field inside the vector, which the getter of that width
-- then reads back, or refuses a field that passes the end, leaves the vector as it was, and the
-- getter refuses the same field. The vector keeps its length in both cases.
pub get_uint-set_uint_self :
    (n : ℕ) (iov : Iovec) (off v : ℕ)
    → IsBacked iov
    → v < 256 ^ n
    → let (s, iov') = set_uint n iov off v in
      (iov'.len ≡ iov.len)
      × (length iov'.buf ≡ length iov.buf)
      × ((off + n ≤ iov.len) × (s ≡ ok) × (get_uint n iov' off ≡ some v)
          ⊎ (iov.len < off + n) × (s ≡ fail) × (iov' ≡ iov) × (get_uint n iov' off ≡ none))
unfolding set_uint get_uint
get_uint-set_uint_self n iov off v h hv =
    ground (arith, length-put_le n iov.buf off v, get_le-put_le_self n iov.buf off v)

-- The fields of other widths or at other places that do not overlap the written one are read as
-- before, whether the write was made or refused.
pub get_uint-set_uint_ne :
    (m n : ℕ) (iov : Iovec) (off i v : ℕ)
    → (i + m ≤ off) ⊎ (off + n ≤ i)
    → get_uint m (set_uint n iov off v).1 i ≡ get_uint m iov i
unfolding set_uint get_uint
get_uint-set_uint_ne m n iov off i v h = ground (arith, get_le-put_le_ne m n iov.buf off v i h)
