-- ===== src/Commands/Fields.antt =====
-- What the files Sources/CSMB/lib/smb2-cmd-*.c have in common: a body is a zeroed buffer that is
-- added to the vectors of a PDU and filled field by field, and a PDU is allocated, given its body
-- and padded.
use photo_transfer_nativesmb.Common.{
  ℕ, ◌+◌, ◌-◌, ◌*◌, ◌/◌, ◌%◌, ◌^◌, List, [], ◌∷◌, ◌++◌, Bool, false, ◌&&◌, ltb, ◌==◌, if◌then◌else◌,
  Option, none, some, replicate, bit_and,
}
use photo_transfer_nativesmb.Wire.{Iovec, ok, fail, put_bytes, get_bytes, set_uint, get_uint}
use photo_transfer_nativesmb.Wire.Vectors.{IoVectors, add_iovector, pad_to_64bit}
use photo_transfer_nativesmb.Smb2.{Pdu, Context}
use photo_transfer_nativesmb.Pdu.{allocate_pdu}
use photo_transfer_nativesmb.Header.{or_old}

-- `smb2_set_uint8` to `smb2_set_uint64(iov, offset, value)` by their width in bytes, and
-- `memcpy(iov->buf + offset, xs, n)`.
pub data Field : Type 0 where
  uint : ℕ → ℕ → ℕ → Field
  bytes : ℕ → ℕ → List ℕ → Field

unfoldable pub write_field : Iovec → Field → Iovec
unfolding set_uint
write_field iov (uint width off v) = (set_uint width iov off v).1
write_field iov (bytes n off xs) = record iov { buf = put_bytes iov.buf off (get_bytes n xs 0) }

unfoldable pub write_fields : Iovec → List Field → Iovec
unfolding write_field
write_fields iov [] = iov
write_fields iov (f ∷ fs) = write_fields (write_field iov f) fs

-- `calloc(len)`, `smb2_add_iovector` and the writes.
unfoldable pub body : ℕ → List Field → Iovec
unfolding write_fields
body len fields = write_fields (record { buf = replicate len 0; len = len }) fields

unfoldable pub add_body : ℕ → List Field → IoVectors → Option IoVectors
unfolding body
add_body len fields out = add_iovector out (body len fields)

-- `malloc(len)`, `memcpy` of `len` bytes, and `smb2_add_iovector`.
unfoldable pub add_copy : ℕ → List ℕ → IoVectors → Option IoVectors
add_copy len xs out = add_iovector out (record { buf = get_bytes len xs 0; len = len })

-- `return len;` of a function that returns an `int`: a negative one is a failure to the caller.
abbrev pub returned : {A : Type 0} → A → ℕ → Option (A × ℕ)
returned a len = if ltb (len % 2 ^ 32) (2 ^ 31) then some (a, len % 2 ^ 32) else none

-- A second vector behind the first.
infixr 30 ◌then◌
abbrev pub ◌then◌ :
    (IoVectors → Option IoVectors) → (IoVectors → Option IoVectors) → IoVectors → Option IoVectors
(f then g) out = elim (f out) [ none ↦ none | some out' ↦ g out' ]

abbrev pub no_more : IoVectors → Option IoVectors
no_more out = some out

abbrev pub refuse : IoVectors → Option IoVectors
refuse out = none

-- A PDU with its body, padded.
unfoldable pub with_body : (IoVectors → Option IoVectors) → Pdu → Option Pdu
with_body encode p = elim (encode p.out) [
  | none ↦ none
  | some out ↦
      let (s, out') = pad_to_64bit out in
      elim s [ fail ↦ none | ok ↦ some (record p { out = out' }) ]
]

-- `ref` and `now` are those of the new PDU.
unfoldable pub command_pdu : Context → ℕ → ℕ → ℕ → (IoVectors → Option IoVectors) → Option Pdu
unfolding with_body
command_pdu c ref now command encode = elim (allocate_pdu c ref now command) [
  | none ↦ none
  | some p ↦ with_body encode p
]

-- `struct_size` is the one that is expected, and the vector has that many bytes, the lowest bit
-- left out. A vector without room for the size itself has not.
unfoldable pub is_sized : ℕ → Iovec → Bool
unfolding get_uint
is_sized size iov = elim (get_uint 2 iov 0) [
  | none ↦ false
  | some n ↦ n == size && bit_and size 0xfffe == iov.len
]

-- `PAD_TO_32BIT` and `PAD_TO_64BIT`, of a number below 2 ^ 32 - 8.
abbrev pub pad_to_32 : ℕ → ℕ
pad_to_32 len = (len + 3) / 4 * 4

abbrev pub pad_to_64 : ℕ → ℕ
pad_to_64 len = (len + 7) / 8 * 8

-- A read into a field of a payload that `malloc` made: where it fails the field is not set, which a
-- body of the size that was checked for excludes.
unfoldable pub read_field : ℕ → Iovec → ℕ → ℕ
unfolding get_uint
read_field width iov off = or_old (get_uint width iov off) 0

-- What the marshallers of reads and writes take from the context.
pub record Limits : Type 0 where
  pub supports_multi_credit : Bool
  pub passthrough : Bool
  pub max_read_size : ℕ

-- A copy of `len` bytes with zeros up to a multiple of eight.
unfoldable pub add_padded : ℕ → List ℕ → IoVectors → Option IoVectors
add_padded len xs out =
    add_iovector out (record {
      buf = get_bytes len xs 0 ++ replicate (pad_to_64 len - len) 0;
      len = pad_to_64 len;
    })

-- The charge for a large payload; its field has 16 bits, and the length 32.
unfoldable pub with_charge : Limits → ℕ → Pdu → Pdu
with_charge limits len p =
    let charge = ((len + 2 ^ 32 - 1) % 2 ^ 32 / 65536 + 1) % 2 ^ 16 in
    if limits.supports_multi_credit
    then record p { header = record p.header { credit_charge = charge } }
    else p
