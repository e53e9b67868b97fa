-- ===== src/Commands/Write.antt =====
-- Sources/CSMB/lib/smb2-cmd-write.c, and its structures in Sources/CSMB/include/smb2/smb2.h.
use photo_transfer_nativesmb.Common.{
  ℕ, ◌+◌, ◌-◌, ◌*◌, List, [], ◌∷◌, ◌++◌, ◌&&◌, not, ltb, ◌==◌, if◌then◌else◌, Option, none, some,
}
use photo_transfer_nativesmb.Wire.{Iovec, get_bytes}
use photo_transfer_nativesmb.Wire.Vectors.{IoVectors, add_iovector}
use photo_transfer_nativesmb.Smb2.{Pdu, Context, header_size}
use photo_transfer_nativesmb.Smb2.Command
use photo_transfer_nativesmb.Socket.{drop}
use photo_transfer_nativesmb.Commands.Fields.{
  returned, Field, uint, bytes, add_body, ◌then◌, refuse, command_pdu, is_sized, read_field,
  pad_to_64, Limits, add_padded, with_charge,
}

-- `buf` holds `length` bytes at least; a null `write_channel_info` is `none`.
pub record WriteRequest : Type 0 where
  pub data_offset : ℕ
  pub length : ℕ
  pub offset : ℕ
  pub buf : List ℕ
  pub file_id : List ℕ
  pub channel : ℕ
  pub remaining_bytes : ℕ
  pub write_channel_info_offset : ℕ
  pub write_channel_info_length : ℕ
  pub write_channel_info : Option (List ℕ)
  pub flags : ℕ

pub record WriteReply : Type 0 where
  pub count : ℕ
  pub remaining : ℕ

unfoldable pub limit_write : Limits → WriteRequest → WriteRequest
limit_write limits req =
    if not limits.supports_multi_credit && ltb (64 * 1024) req.length
    then record req { length = 64 * 1024 }
    else req

abbrev pub write_request_fields : WriteRequest → List Field
write_request_fields req =
    uint 2 0 49
    ∷ uint 2 2 (header_size + 48)
    ∷ uint 4 4 req.length
    ∷ uint 8 8 req.offset
    ∷ bytes 16 16 req.file_id
    ∷ uint 4 32 req.channel
    ∷ uint 4 36 req.remaining_bytes
    ∷ uint 2 42 req.write_channel_info_length
    ∷ uint 4 44 req.flags
    ∷ []

unfoldable pub encode_write_request : Limits → WriteRequest → IoVectors → Option IoVectors
unfolding add_body add_padded
encode_write_request limits req =
    let fields = write_request_fields req in
    if req.write_channel_info_length == 0 then add_body 48 fields else elim req.write_channel_info [
      | none ↦ add_body 48 fields
      | some info ↦
          if limits.passthrough
          then add_body 48 (fields ++ (uint 2 40 (48 + header_size) ∷ []))
          then add_padded req.write_channel_info_length info
          else add_body 48 fields then refuse
    ]

-- The data are one vector more, behind the padding.
unfoldable pub cmd_write_async : Limits → Context → ℕ → ℕ → WriteRequest → Option Pdu
unfolding limit_write encode_write_request command_pdu with_charge
cmd_write_async limits c ref now req =
    let req' = limit_write limits req in
    elim (command_pdu c ref now Command.write (encode_write_request limits req')) [
      | none ↦ none
      | some p ↦ elim (add_iovector p.out (record { buf = req'.buf; len = req'.length })) [
        | none ↦ none
        | some out ↦ some (with_charge limits req'.length (record p { out = out }))
      ]
    ]

abbrev pub write_reply_fields : WriteReply → List Field
write_reply_fields rep = uint 2 0 17 ∷ uint 4 4 rep.count ∷ uint 4 8 rep.remaining ∷ []

unfoldable pub encode_write_reply : WriteReply → IoVectors → Option IoVectors
unfolding add_body
encode_write_reply rep = add_body 17 (write_reply_fields rep)

unfoldable pub cmd_write_reply_async : Context → ℕ → ℕ → WriteReply → Option Pdu
unfolding command_pdu encode_write_reply
cmd_write_reply_async c ref now rep = command_pdu c ref now Command.write (encode_write_reply rep)

unfoldable pub process_write_fixed : Iovec → Option WriteReply
unfolding is_sized read_field
process_write_fixed iov =
    if is_sized 17 iov
    then some (record { count = read_field 4 iov 4; remaining = read_field 4 iov 8 })
    else none

-- The distance of the channel information from the fixed part, an `int` below 2^16.
abbrev pub write_channel_start : WriteRequest → ℕ
write_channel_start req =
    if req.write_channel_info_length == 0
    then 0
    else req.write_channel_info_offset - header_size - 48

-- The request, and the length of what follows, as an `int`.
unfoldable pub process_write_request_fixed : Iovec → Option (WriteRequest × ℕ)
unfolding read_field
process_write_request_fixed iov =
    let req : WriteRequest = record {
      data_offset = read_field 2 iov 2;
      length = read_field 4 iov 4;
      offset = read_field 8 iov 8;
      buf = [];
      file_id = get_bytes 16 iov.buf 16;
      channel = read_field 4 iov 32;
      remaining_bytes = read_field 4 iov 36;
      write_channel_info_offset = read_field 2 iov 40;
      write_channel_info_length = read_field 2 iov 42;
      write_channel_info = none;
      flags = read_field 4 iov 44;
    } in
    let has_info = not (req.write_channel_info_length == 0) in
    let start = write_channel_start req in
    if ltb 49 (read_field 2 iov 0)
    then none
    else (if has_info && ltb req.write_channel_info_offset (header_size + 48)
        then none
        else (if not (req.length == 0)
            then returned req (start + pad_to_64 req.write_channel_info_length + req.length)
            else returned req (start + req.write_channel_info_length)))

-- The channel information and the data are found in the vector that follows.
unfoldable pub process_write_request_variable : Iovec → WriteRequest → WriteRequest
unfolding drop
process_write_request_variable iov req =
    let info = drop (write_channel_start req) iov.buf in
    record req {
      write_channel_info = some info;
      buf = drop (pad_to_64 req.write_channel_info_length) info;
    }
