-- ===== src/Commands/Read.antt =====
-- Sources/CSMB/lib/smb2-cmd-read.c, and its structures in Sources/CSMB/include/smb2/smb2.h.
use photo_transfer_nativesmb.Common.{
  ℕ, ◌+◌, ◌-◌, ◌*◌, List, [], ◌∷◌, ◌++◌, Bool, false, ◌&&◌, not, ltb, ◌==◌, if◌then◌else◌, Option,
  none, some,
}
use photo_transfer_nativesmb.Wire.{Iovec, get_bytes}
use photo_transfer_nativesmb.Wire.Vectors.{IoVectors, add_iovector}
use photo_transfer_nativesmb.Smb2.{Pdu, Context, header_size}
use photo_transfer_nativesmb.Smb2.Command
use photo_transfer_nativesmb.Commands.Fields.{
  returned, Field, uint, bytes, add_body, ◌then◌, no_more, refuse, command_pdu, read_field, Limits,
  add_padded, with_charge,
}

-- `has_buf` is `buf != NULL`; a null `read_channel_info` is `none`.
pub record ReadRequest : Type 0 where
  pub flags : ℕ
  pub length : ℕ
  pub offset : ℕ
  pub has_buf : Bool
  pub file_id : List ℕ
  pub minimum_count : ℕ
  pub channel : ℕ
  pub remaining_bytes : ℕ
  pub read_channel_info_offset : ℕ
  pub read_channel_info_length : ℕ
  pub read_channel_info : Option (List ℕ)

-- A null `data` is `none`.
pub record ReadReply : Type 0 where
  pub data_offset : ℕ
  pub data_length : ℕ
  pub data_remaining : ℕ
  pub payload : Option (List ℕ)

-- A server that takes no large reads is asked for less.
unfoldable pub limit_read : Limits → ReadRequest → ReadRequest
limit_read limits req =
    if not limits.supports_multi_credit && ltb (64 * 1024) req.length
    then record req { length = 64 * 1024; minimum_count = 0 }
    else req

abbrev pub read_request_fields : ReadRequest → List Field
read_request_fields req =
    uint 2 0 49
    ∷ uint 1 3 req.flags
    ∷ uint 4 4 req.length
    ∷ uint 8 8 req.offset
    ∷ bytes 16 16 req.file_id
    ∷ uint 4 32 req.minimum_count
    ∷ uint 4 36 req.channel
    ∷ uint 4 40 req.remaining_bytes
    ∷ uint 2 46 req.read_channel_info_length
    ∷ []

-- What stands behind the fixed part: there is a zero byte at least, unless there is channel
-- information.
unfoldable pub encode_read_request : Limits → ReadRequest → IoVectors → Option IoVectors
unfolding add_body add_padded
encode_read_request limits req =
    let fields = read_request_fields req in
    let zero_byte = λ (out : IoVectors). add_iovector out (record { buf = 0 ∷ []; len = 1 }) in
    if req.read_channel_info_length == 0
    then add_body 48 fields
    then zero_byte
    else elim req.read_channel_info [
      | none ↦ add_body 48 fields
      | some info ↦
          if limits.passthrough
          then add_body 48 (fields ++ (uint 2 44 (48 + header_size) ∷ []))
          then add_padded req.read_channel_info_length info
          else add_body 48 fields then refuse
    ]

-- The vector for the reply is not modelled, apart from the check that there is a buffer for it.
unfoldable pub cmd_read_async : Limits → Context → ℕ → ℕ → ReadRequest → Option Pdu
unfolding limit_read encode_read_request command_pdu with_charge
cmd_read_async limits c ref now req =
    let req' = limit_read limits req in
    if not (req'.length == 0) && not req'.has_buf
    then none
    else elim (command_pdu c ref now Command.read (encode_read_request limits req')) [
      | none ↦ none
      | some p ↦ some (with_charge limits req'.length p)
    ]

abbrev pub has_data : ReadReply → Bool
has_data rep = elim rep.payload [ none ↦ false | some _ ↦ not (rep.data_length == 0) ]

-- The offset of the data, if there is some; the field has 8 bits.
abbrev pub read_data_offset : ReadReply → ℕ
read_data_offset rep = if has_data rep then 16 + header_size else 0

abbrev pub read_reply_fields : ReadReply → List Field
read_reply_fields rep =
    uint 2 0 17
    ∷ uint 1 2 (read_data_offset rep)
    ∷ uint 4 4 rep.data_length
    ∷ uint 4 8 rep.data_remaining
    ∷ []

unfoldable pub encode_read_reply : ReadReply → IoVectors → Option IoVectors
unfolding add_body
encode_read_reply rep = add_body 16 (read_reply_fields rep) then elim rep.payload [
  | none ↦ no_more
  | some xs ↦
      if rep.data_length == 0
      then no_more
      else (λ out. add_iovector out (record { buf = xs; len = rep.data_length }))
]

unfoldable pub cmd_read_reply_async : Context → ℕ → ℕ → ReadReply → Option Pdu
unfolding command_pdu encode_read_reply
cmd_read_reply_async c ref now rep = command_pdu c ref now Command.read (encode_read_reply rep)

-- The reply and the length of the data. A size above the expected one is refused, and data that
-- does not stand right behind the reply.
unfoldable pub process_read_fixed : Iovec → Option (ReadReply × ℕ)
unfolding read_field
process_read_fixed iov =
    let rep : ReadReply = record {
      data_offset = read_field 1 iov 2;
      data_length = read_field 4 iov 4;
      data_remaining = read_field 4 iov 8;
      payload = none;
    } in
    if ltb 17 (read_field 2 iov 0)
    then none
    else (if rep.data_length == 0
        then some (rep, 0)
        else (if rep.data_offset == header_size + 16 then returned rep rep.data_length else none))

-- `data` was set to NULL, so it is the vector's buffer.
unfoldable pub process_read_variable : Iovec → ReadReply → ReadReply
process_read_variable iov rep = elim rep.payload [
  | some _ ↦ record rep { payload = some (get_bytes rep.data_length iov.buf 0) }
  | none ↦ record rep { payload = some iov.buf }
]

-- `read_channel_info_length` is tested before it is read, when `calloc` has just made it 0, so the
-- offset keeps its 0.
unfoldable pub process_read_request_fixed : Limits → Iovec → Option (ReadRequest × ℕ)
unfolding read_field
process_read_request_fixed limits iov =
    let zeroed : ℕ = 0 in
    let offset = if zeroed == 0 then zeroed else read_field 2 iov 44 in
    let req : ReadRequest = record {
      flags = read_field 1 iov 3;
      length = read_field 4 iov 4;
      offset = read_field 8 iov 8;
      has_buf = false;
      file_id = get_bytes 16 iov.buf 16;
      minimum_count = read_field 4 iov 32;
      channel = read_field 4 iov 36;
      remaining_bytes = read_field 4 iov 40;
      read_channel_info_offset = offset;
      read_channel_info_length = read_field 2 iov 46;
      read_channel_info = none;
    } in
    let start = if offset == 0 then 0 else offset - header_size - 48 in
    if ltb 49 (read_field 2 iov 0)
    then none
    else (if ltb limits.max_read_size req.length
        then none
        else (if req.read_channel_info_length == 0
            then some (req, 0)
            else (if ltb offset (header_size + 48)
                then none
                else some (req, start + req.read_channel_info_length))))

unfoldable pub process_read_request_variable : Iovec → ReadRequest → ReadRequest
process_read_request_variable iov req = record req { read_channel_info = some iov.buf }
