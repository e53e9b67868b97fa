-- ===== src/Commands/Lock.antt =====
-- Sources/CSMB/lib/smb2-cmd-lock.c, and its structures in Sources/CSMB/include/smb2/smb2.h.
use photo_transfer_nativesmb.Common.{
  ℕ, zero, suc, ◌+◌, ◌-◌, ◌*◌, ◌/◌, ◌%◌, ◌^◌, List, [], ◌∷◌, ◌++◌, ◌&&◌, not, ltb, ◌==◌,
  if◌then◌else◌, Option, none, some, bit_and, bit_or,
}
use photo_transfer_nativesmb.Wire.{Iovec, Status, ok, fail, get_bytes}
use photo_transfer_nativesmb.Wire.Vectors.{IoVectors}
use photo_transfer_nativesmb.Smb2.{Pdu, Context}
use photo_transfer_nativesmb.Smb2.Command
use photo_transfer_nativesmb.Socket.{drop}
use photo_transfer_nativesmb.Commands.Fields.{
  Field, uint, bytes, add_body, ◌then◌, command_pdu, is_sized, read_field, pad_to_64,
}

pub record LockElement : Type 0 where
  pub offset : ℕ
  pub length : ℕ
  pub flags : ℕ

-- `locks` has the elements; NULL is the empty list.
pub record LockRequest : Type 0 where
  pub lock_count : ℕ
  pub lock_sequence_number : ℕ
  pub lock_sequence_index : ℕ
  pub file_id : List ℕ
  pub locks : List LockElement

abbrev pub lock_element_size : ℕ
lock_element_size = 24

-- An element at `offset`.
abbrev pub lock_fields : ℕ → LockElement → List Field
lock_fields offset e =
    uint 8 offset e.offset ∷ uint 8 (offset + 8) e.length ∷ uint 4 (offset + 16) e.flags ∷ []

-- The loop over the elements behind the first, `count` of them.
unfoldable pub more_lock_fields : ℕ → ℕ → List LockElement → List Field
more_lock_fields zero offset elements = []
more_lock_fields (suc count) offset [] = []
more_lock_fields (suc count) offset (e ∷ elements) =
    lock_fields offset e ++ more_lock_fields count (offset + lock_element_size) elements

-- `(lock_sequence_number << 28) | lock_sequence_index`: the number is an `int`, cut to 32 bits.
abbrev pub lock_sequence : LockRequest → ℕ
lock_sequence req = bit_or (req.lock_sequence_number * 2 ^ 28 % 2 ^ 32) req.lock_sequence_index

abbrev pub lock_request_fields : LockRequest → List Field
lock_request_fields req =
    uint 2 0 48
    ∷ uint 2 2 req.lock_count
    ∷ uint 4 4 (lock_sequence req)
    ∷ bytes 16 8 req.file_id
    ∷ []

-- The first element is in the fixed part, and the others in a vector with room for one more.
unfoldable pub encode_lock_request : LockRequest → IoVectors → Option IoVectors
unfolding add_body more_lock_fields
encode_lock_request req =
    let size = pad_to_64 (lock_element_size * req.lock_count) in
    elim req.locks [
      | [] ↦ add_body 48 (lock_request_fields req)
      | e ∷ elements ↦
          if req.lock_count == 0
          then add_body 48 (lock_request_fields req)
          else (if ltb 1 req.lock_count
              then add_body 48 (lock_request_fields req ++ lock_fields 24 e)
              then add_body size (more_lock_fields (req.lock_count - 1) 0 elements)
              else add_body 48 (lock_request_fields req ++ lock_fields 24 e))
    ]

unfoldable pub cmd_lock_async : Context → ℕ → ℕ → LockRequest → Option Pdu
unfolding command_pdu encode_lock_request
cmd_lock_async c ref now req = command_pdu c ref now Command.lock (encode_lock_request req)

unfoldable pub encode_lock_reply : IoVectors → Option IoVectors
unfolding add_body
encode_lock_reply = add_body 4 (uint 2 0 4 ∷ [])

unfoldable pub cmd_lock_reply_async : Context → ℕ → ℕ → Option Pdu
unfolding command_pdu encode_lock_reply
cmd_lock_reply_async c ref now = command_pdu c ref now Command.lock encode_lock_reply

unfoldable pub process_lock_fixed : Iovec → Status
unfolding is_sized
process_lock_fixed iov = if is_sized 4 iov then ok else fail

-- `smb2_parse_locks`, for `count` elements.
unfoldable pub parse_locks : ℕ → Iovec → ℕ → List LockElement
unfolding read_field
parse_locks zero iov offset = []
parse_locks (suc count) iov offset =
    record {
      offset = read_field 8 iov offset;
      length = read_field 8 iov (offset + 8);
      flags = read_field 4 iov (offset + 16);
    }
    ∷ parse_locks count iov (offset + lock_element_size)

-- The request with its first element, and the length of the others. There is one at least.
unfoldable pub process_lock_request_fixed : Iovec → Option (LockRequest × ℕ)
unfolding is_sized read_field parse_locks drop
process_lock_request_fixed iov =
    let count = read_field 2 iov 2 in
    let sequence = read_field 4 iov 4 in
    let vec : Iovec = record {
      buf = drop lock_element_size iov.buf;
      len = iov.len - lock_element_size;
    } in
    if is_sized 48 iov && not (count == 0)
    then some (
      record {
        lock_count = count;
        lock_sequence_number = sequence / 2 ^ 28;
        lock_sequence_index = bit_and sequence 0x0FFFFFFF;
        file_id = get_bytes 16 iov.buf 8;
        locks = parse_locks 1 vec 0;
      },
      lock_element_size * (count - 1),
    )
    else none

unfoldable pub process_lock_request_variable : Iovec → LockRequest → LockRequest
unfolding parse_locks
process_lock_request_variable iov req = record req {
  locks = req.locks ++ parse_locks (req.lock_count - 1) iov 0;
}
