-- ===== src/Asn1/Write.antt =====
-- Sources/CSMB/lib/asn1-ber.c: the functions that write BER (asn1ber_ber_from_length and on).
use photo_transfer_nativesmb.Common.{
  ℕ, zero, suc, ◌+◌, ◌-◌, ◌*◌, ◌/◌, ◌%◌, ◌^◌, List, [], ◌∷◌, ◌&&◌, not, ltb, leb, ◌==◌,
  if◌then◌else◌, bit_and, bit_or, Option, none, some, length,
}
use photo_transfer_nativesmb.Wire.{put_bytes, get_bytes}
use photo_transfer_nativesmb.Asn1.{
  Ber, too_big, done, failed, diverged, M, ◌>>=◌, ◌>>◌, return, fail_with, out_byte, save_out_state,
}
use photo_transfer_nativesmb.Asn1.Read.{max_oid_elements}

-- `while (needed > 0) { out_byte((uint8_t)(val >> (8 * (needed - 1)))); needed--; }`; a shift past
-- the width, which C leaves undefined, gives 0 here.
unfoldable pub out_big_endian : ℕ → ℕ → M (Unit {0})
out_big_endian zero val = return tt
out_big_endian (suc n) val = do out_byte (val / 2 ^ (8 * n) % 256); out_big_endian n val

-- `for (n = 0, v = lenin; v; n++) v >>= 8;` with fuel: a uint32 has four bytes.
unfoldable pub count_bytes : ℕ → ℕ → ℕ
count_bytes zero v = 0
count_bytes (suc fuel) v = let more = count_bytes fuel (v / 2 ^ 8) in if v == 0 then 0 else 1 + more

-- The result is `*lenout`.
unfoldable pub ber_from_length : ℕ → M ℕ
ber_from_length len =
    let needed = count_bytes 5 len in
    if ltb len 128
    then (do out_byte (len % 256); return 1)
    else (do out_byte (bit_or 0x80 needed % 256); out_big_endian needed len; return (1 + needed))

unfoldable pub ber_reserve_length : ℕ → M (Unit {0})
ber_reserve_length zero = return tt
ber_reserve_length (suc len) = do out_byte 0; ber_reserve_length len

unfoldable pub ber_from_typecode : ℕ → M (Unit {0})
ber_from_typecode t = out_byte (t % 256)

unfoldable pub ber_from_typelen : ℕ → ℕ → M ℕ
ber_from_typelen t len = do out_byte (t % 256); outlen ← ber_from_length len; return (outlen + 1)

-- `memmove(dst + to, dst + from, n)`
abbrev pub move_bytes : List ℕ → ℕ → ℕ → ℕ → List ℕ
move_bytes dst to from n = put_bytes dst to (get_bytes n dst from)

-- The second half of `asn1ber_annotate_length`: the contents of `made` bytes are moved behind a
-- length that took `lenbytes`, if more was reserved.
unfoldable pub close_gap : ℕ → ℕ → ℕ → ℕ → M (Unit {0})
close_gap out_pos reserved made lenbytes a = elim a.dst [
  | none ↦ (failed, a)
  | some dst ↦ (
    done tt,
    record a {
      dst = some (
          if ltb lenbytes reserved
          then move_bytes dst a.dst_head (out_pos + reserved) made
          else dst);
      dst_head = a.dst_head + made;
    },
  )
]

unfoldable pub annotate_length : ℕ → ℕ → M (Unit {0})
annotate_length out_pos reserved a =
    let made = (a.dst_head + 2 ^ 32 - out_pos + 2 ^ 32 - reserved) % 2 ^ 32 in
    let body = do lenbytes ← ber_from_length made; close_gap out_pos reserved made lenbytes
    in elim a.dst [
      | none ↦ (failed, a)
      | some dst ↦
          if ltb a.dst_head a.dst_size then body (record a { dst_head = out_pos }) else (failed, a)
    ]

-- `for (bytes = val; bytes; needed--) { if (bytes & top) break; bytes <<= 8; }` in `w` bits, with
-- fuel: one bits reach the top byte within `w / 8` rounds. `needed` is a uint32.
unfoldable pub top_byte : ℕ → ℕ → ℕ → ℕ → ℕ
top_byte w zero bytes needed = needed
top_byte w (suc fuel) bytes needed =
    let next = top_byte w fuel (bytes * 2 ^ 8 % 2 ^ w) ((needed + 2 ^ 32 - 1) % 2 ^ 32) in
    if bytes == 0
    then needed
    else (if not (bit_and bytes (0xff * 2 ^ (w - 8)) == 0) then needed else next)

-- A tag, a length and the bytes of the number.
unfoldable pub out_number : ℕ → ℕ → ℕ → M (Unit {0})
out_number t needed val = do outlen ← ber_from_typelen t needed; out_big_endian needed val

-- The loop that counts the bytes of a negative number, for as many rounds as there is fuel: `none` is
-- a loop that did not end in them. The count is a uint32.
unfoldable pub signed_loop : ℕ → ℕ → ℕ → ℕ → Option ℕ
signed_loop w zero bytes needed = none
signed_loop w (suc fuel) bytes needed =
    let rest = signed_loop w fuel bytes ((needed + 2 ^ 32 - 1) % 2 ^ 32) in
    if bytes == 0
    then some needed
    else (if not (bit_and bytes (0x1ff * 2 ^ (w - 9)) == 0x1ff * 2 ^ (w - 9))
        then some needed
        else rest)

unfoldable pub out_signed : ℕ → ℕ → ℕ → ℕ → M (Unit {0})
unfolding signed_loop
out_signed fuel w t val =
    if val == 0
    then out_number t 1 val
    else (if leb (2 ^ (w - 1)) val
        then elim (signed_loop w fuel val (w / 8)) [
          | none ↦ λ a. (diverged, a)
          | some needed ↦ out_number t needed val
        ]
        else out_number t (top_byte w (w / 8 + 1) val (w / 8)) val)

unfoldable pub ber_from_int32 : ℕ → ℕ → ℕ → M (Unit {0})
ber_from_int32 fuel = out_signed fuel 32

unfoldable pub ber_from_int64 : ℕ → ℕ → ℕ → M (Unit {0})
ber_from_int64 fuel = out_signed fuel 64

unfoldable pub ber_from_uint32 : ℕ → ℕ → M (Unit {0})
ber_from_uint32 t val = out_number t (top_byte 32 5 val 4) val

-- As written, the count starts at 4 for eight bytes too.
unfoldable pub ber_from_uint64 : ℕ → ℕ → M (Unit {0})
ber_from_uint64 t val = out_number t (top_byte 64 9 val 4) val

unfoldable pub ber_from_single_oid : ℕ → M (Unit {0})
ber_from_single_oid oidb =
    let a = bit_and oidb 0x7f in
    let b = bit_and (oidb / 2 ^ 7) 0x7f in
    let c = bit_and (oidb / 2 ^ 14) 0x7f in
    let d = bit_and (oidb / 2 ^ 21) 0x7f in
    let e = bit_and (oidb / 2 ^ 28) 0x7f in
    do
      (if e == 0 then return tt else out_byte (bit_or e 0x80))
      (if d == 0 && e == 0 then return tt else out_byte (bit_or d 0x80))
      (if c == 0 && d == 0 && e == 0 then return tt else out_byte (bit_or c 0x80))
      (if b == 0 && c == 0 && d == 0 && e == 0 then return tt else out_byte (bit_or b 0x80))
      out_byte a

unfoldable pub out_elements : List ℕ → M (Unit {0})
out_elements [] = return tt
out_elements (e ∷ es) = do ber_from_single_oid e; out_elements es

-- The elements: the first two in one where the first is below 40 (in 32 bits).
unfoldable pub joined_elements : List ℕ → List ℕ
joined_elements (x ∷ y ∷ es) = if ltb x 40 then (x * 40 + y) % 2 ^ 32 ∷ es else x ∷ y ∷ es
joined_elements es = es

-- The status of `asn1ber_save_out_state` is dropped: `lenpos` is then not set, which is 0 here.
unfoldable pub saved_position : Ber → ℕ
unfolding save_out_state
saved_position a = elim (save_out_state a).0 [ done p ↦ p | _ ↦ 0 ]

-- `oid` is not null; the length is that of the list.
unfoldable pub ber_from_oid : List ℕ → M (Unit {0})
ber_from_oid es = if leb max_oid_elements (length es) then fail_with too_big else do
  ber_from_typecode 0x06
  lenpos ← (λ a. (done (saved_position a), a))
  ber_reserve_length 1
  out_elements (joined_elements es)
  annotate_length lenpos 1

unfoldable pub out_bytes : List ℕ → M (Unit {0})
out_bytes [] = return tt
out_bytes (b ∷ bs) = do out_byte b; out_bytes bs

-- `val[0 … len)` is the list.
unfoldable pub ber_from_bytes : ℕ → List ℕ → M (Unit {0})
ber_from_bytes t bs = do outlen ← ber_from_typelen t (length bs); out_bytes bs

unfoldable pub ber_from_string : List ℕ → M (Unit {0})
ber_from_string = ber_from_bytes 0x04
