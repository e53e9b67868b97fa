-- ===== src/Wire.antt =====
-- Sources/CSMB/lib/pdu.c: the little-endian accessors smb2_set_uint* and smb2_get_uint* of an
-- I/O vector, on which every marshaller of the library rests.
pub mod Access
pub mod Vectors
mod Tests
use photo_transfer_nativesmb.Common.{
  ℕ, zero, suc, [], ◌∷◌, ◌+◌, ◌*◌, ◌/◌, ◌%◌, List, length, get_or, set, ltb, if◌then◌else◌, Option,
  none, some,
}

-- `struct smb2_iovec`: the bytes that `buf` points to, and `len`. Who frees them is not modelled.
pub record Iovec : Type 0 where
  pub buf : List ℕ
  pub len : ℕ

-- The 0 or -1 that a C function returns.
pub data Status : Type 0 where
  ok fail : Status

-- `memcpy(buf + offset, &v, n)` for `v` in little-endian order, as `htole16` and its like make it.
unfoldable pub put_le : ℕ → List ℕ → ℕ → ℕ → List ℕ
put_le zero b off v = b
put_le (suc n) b off v = put_le n (set b off (v % 256)) (off + 1) (v / 256)

-- `memcpy(&v, buf + offset, n)` and `le16toh` or its like.
unfoldable pub get_le : ℕ → List ℕ → ℕ → ℕ
get_le zero b off = 0
get_le (suc n) b off = get_or b off 0 + 256 * get_le n b (off + 1)

-- `memcpy(buf + off, xs, n)`, and a copy of `n` bytes from `off` on.
unfoldable pub put_bytes : List ℕ → ℕ → List ℕ → List ℕ
put_bytes b off [] = b
put_bytes b off (x ∷ xs) = put_bytes (set b off x) (off + 1) xs

unfoldable pub get_bytes : ℕ → List ℕ → ℕ → List ℕ
get_bytes zero b off = []
get_bytes (suc n) b off = get_or b off 0 ∷ get_bytes n b (off + 1)

-- The four setters differ in the width `n` alone: they refuse a field that passes the end of the
-- vector, and write nothing then. `offset` is not negative, so that `offset + n` does not wrap.
unfoldable pub set_uint : ℕ → Iovec → ℕ → ℕ → Status × Iovec
set_uint n iov off v =
    if ltb iov.len (off + n) then (fail, iov) else (ok, record iov { buf = put_le n iov.buf off v })

unfoldable pub set_uint8 : Iovec → ℕ → ℕ → Status × Iovec
unfolding set_uint
set_uint8 = set_uint 1

unfoldable pub set_uint16 : Iovec → ℕ → ℕ → Status × Iovec
unfolding set_uint
set_uint16 = set_uint 2

unfoldable pub set_uint32 : Iovec → ℕ → ℕ → Status × Iovec
unfolding set_uint
set_uint32 = set_uint 4

unfoldable pub set_uint64 : Iovec → ℕ → ℕ → Status × Iovec
unfolding set_uint
set_uint64 = set_uint 8

-- The getters: `none` is the -1, on which `*value` keeps what it held.
unfoldable pub get_uint : ℕ → Iovec → ℕ → Option ℕ
get_uint n iov off = if ltb iov.len (off + n) then none else some (get_le n iov.buf off)

unfoldable pub get_uint8 : Iovec → ℕ → Option ℕ
unfolding get_uint
get_uint8 = get_uint 1

unfoldable pub get_uint16 : Iovec → ℕ → Option ℕ
unfolding get_uint
get_uint16 = get_uint 2

unfoldable pub get_uint32 : Iovec → ℕ → Option ℕ
unfolding get_uint
get_uint32 = get_uint 4

unfoldable pub get_uint64 : Iovec → ℕ → Option ℕ
unfolding get_uint
get_uint64 = get_uint 8
