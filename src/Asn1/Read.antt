-- ===== src/Asn1/Read.antt =====
-- Sources/CSMB/lib/asn1-ber.c: the functions that read BER (asn1ber_length_from_ber and on).
use photo_transfer_nativesmb.Common.{
  ℕ, zero, suc, ◌-◌, ◌*◌, ◌/◌, ◌%◌, ◌^◌, List, [], ◌∷◌, ◌++◌, Bool, ◌||◌, not, ltb, leb, ◌==◌,
  if◌then◌else◌, bit_and, bit_or,
}
use photo_transfer_nativesmb.Asn1.{too_big, invalid, M, ◌>>=◌, ◌>>◌, return, fail_with, next_byte}

-- `while (vallen > 0) { …; val <<= 8; val |= b; vallen--; }` in `w` bits.
unfoldable pub big_endian : ℕ → ℕ → ℕ → M ℕ
big_endian w zero val = return val
big_endian w (suc vallen) val = do
  b ← next_byte
  big_endian w vallen (bit_or (val * 2 ^ 8 % 2 ^ w) b)

unfoldable pub length_from_ber : M ℕ
length_from_ber = do
  b ← next_byte
  if bit_and b 0x80 == 0
      then return b
      else (if ltb 4 (bit_and b 0x7f) then fail_with too_big else big_endian 32 (bit_and b 0x7f) 0)

unfoldable pub typecode_from_ber : M ℕ
typecode_from_ber = do
  b ← next_byte
  if not (bit_and b 0x1f == 0x1f)
      then return b
      else do b ← next_byte; return (if leb 0x30 b then b - 0x30 else b)

-- The type code and the length.
unfoldable pub typelen_from_ber : M (ℕ × ℕ)
typelen_from_ber = do t ← typecode_from_ber; len ← length_from_ber; return (t, len)

unfoldable pub request_from_ber : M (ℕ × ℕ)
request_from_ber = typelen_from_ber

unfoldable pub struct_from_ber : M ℕ
struct_from_ber = do
  (t, len) ← typelen_from_ber
  if t == 0x30 then return len else fail_with invalid

unfoldable pub null_from_ber : M ℕ
null_from_ber = do (t, len) ← typelen_from_ber; if t == 0x05 then return len else fail_with invalid

-- The length byte of a number of at most `size` bytes.
unfoldable pub small_length : ℕ → M ℕ
small_length size = do
  vallen ← next_byte
  if ltb size vallen
      then fail_with too_big
      else (if vallen == 0 then fail_with too_big else return vallen)

-- A number is its pattern of `w` bits, two's complement if it is signed: `ival = -1` or `0` by the
-- first byte's top bit, and then the bytes.
unfoldable pub signed_value : ℕ → ℕ → M ℕ
signed_value w vallen = do
  b ← next_byte
  let start = if bit_and b 0x80 == 0 then 0 else 2 ^ w - 1
  big_endian w (vallen - 1) (bit_or (start * 2 ^ 8 % 2 ^ w) b)

abbrev pub is_int32_type : ℕ → Bool
is_int32_type t = t == 0x02 || t == 0x41

abbrev pub is_uint32_type : ℕ → Bool
is_uint32_type t =
    t == 0x01
    || t == 0x40
    || t == 0x41
    || t == 0x42
    || t == 0x43
    || t == 0x45
    || t == 0x47
    || t == 0x0a

abbrev pub is_int64_type : ℕ → Bool
is_int64_type t = t == 0x4a

abbrev pub is_uint64_type : ℕ → Bool
is_uint64_type t = t == 0x4b || t == 0x46

-- The tag, tested before anything else is read.
unfoldable pub expect_type : (ℕ → Bool) → M (Unit {0})
expect_type good = do t ← next_byte; if good t then return tt else fail_with invalid

unfoldable pub int32_from_ber : M ℕ
int32_from_ber = do expect_type is_int32_type; vallen ← small_length 4; signed_value 32 vallen

unfoldable pub uint32_from_ber : M ℕ
uint32_from_ber = do expect_type is_uint32_type; vallen ← small_length 4; big_endian 32 vallen 0

unfoldable pub int64_from_ber : M ℕ
int64_from_ber = do expect_type is_int64_type; vallen ← small_length 8; signed_value 64 vallen

unfoldable pub uint64_from_ber : M ℕ
uint64_from_ber = do expect_type is_uint64_type; vallen ← small_length 8; big_endian 64 vallen 0

-- `for (i = 0; vallen > 0; vallen--) val[i++] = b;` The list is what is stored from `val[0]` on.
unfoldable pub take_bytes : ℕ → M (List ℕ)
take_bytes zero = return []
take_bytes (suc vallen) = do b ← next_byte; rest ← take_bytes vallen; return (b ∷ rest)

-- The bytes and what is stored of them: a NUL behind them where `maxlen` leaves room.
unfoldable pub bytes_value : ℕ → ℕ → M (List ℕ × ℕ)
bytes_value maxlen vallen = do
  bs ← take_bytes vallen
  return ((if ltb vallen maxlen then bs ++ (0 ∷ []) else bs), vallen)

-- The stored bytes and `*lenout`. For an empty string a NUL is stored whatever `maxlen` is.
unfoldable pub bytes_from_ber : ℕ → M (List ℕ × ℕ)
bytes_from_ber maxlen = do
  expect_type (λ t. t == 0x04)
  vallen ← length_from_ber
  if ltb maxlen vallen
      then fail_with too_big
      else (if vallen == 0 then return (0 ∷ [], 0) else bytes_value maxlen vallen)

unfoldable pub string_from_ber : ℕ → M (List ℕ × ℕ)
string_from_ber = bytes_from_ber

abbrev pub max_oid_elements : ℕ
max_oid_elements = 32

-- `while ((b & 0x80) && (vallen > 0))` of `asn1ber_oid_from_ber`: the value and the bytes left.
unfoldable pub oid_element : ℕ → ℕ → ℕ → M (ℕ × ℕ)
oid_element zero b oval = return (oval, zero)
oid_element (suc vallen) b oval =
    if bit_and b 0x80 == 0
    then return (oval, suc vallen)
    else do b' ← next_byte; oid_element vallen b' (bit_or (oval * 2 ^ 7 % 2 ^ 32) (bit_and b' 0x7f))

-- `while (vallen > 0 && i < BER_MAX_OID_ELEMENTS)`, with the room `32 - i` as fuel: the elements
-- and the bytes left.
unfoldable pub oid_elements : ℕ → ℕ → M (List ℕ × ℕ)
oid_elements zero vallen = return ([], vallen)
oid_elements (suc room) vallen = if vallen == 0 then return ([], 0) else do
  b ← next_byte
  (oval, left) ← oid_element (vallen - 1) b (bit_and b 0x7f)
  (es, left') ← oid_elements room left
  return (oval ∷ es, left')

-- The first byte holds two elements. The result is `elements[0 … length)`.
unfoldable pub oid_from_ber : M (List ℕ)
oid_from_ber = do
  expect_type (λ t. t == 0x06)
  vallen ← length_from_ber
  if ltb max_oid_elements vallen || vallen == 0 then fail_with too_big else do
    b ← next_byte
    (es, left) ← oid_elements (max_oid_elements - 2) (vallen - 1)
    if left == 0 then return (b / 40 ∷ (b - b / 40 * 40) ∷ es) else fail_with too_big
