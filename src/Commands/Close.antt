-- ===== src/Commands/Close.antt =====
-- Sources/CSMB/lib/smb2-cmd-close.c, and its structures in Sources/CSMB/include/smb2/smb2.h.
use photo_transfer_nativesmb.Common.{ℕ, List, [], ◌∷◌, if◌then◌else◌, Option, none, some}
use photo_transfer_nativesmb.Wire.{Iovec, get_bytes}
use photo_transfer_nativesmb.Wire.Vectors.{IoVectors}
use photo_transfer_nativesmb.Smb2.{Pdu, Context}
use photo_transfer_nativesmb.Smb2.Command
use photo_transfer_nativesmb.Commands.Fields.{
  Field, uint, bytes, add_body, command_pdu, is_sized, read_field,
}

pub record CloseRequest : Type 0 where
  pub flags : ℕ
  pub file_id : List ℕ

pub record CloseReply : Type 0 where
  pub flags : ℕ
  pub creation_time : ℕ
  pub last_access_time : ℕ
  pub last_write_time : ℕ
  pub change_time : ℕ
  pub allocation_size : ℕ
  pub end_of_file : ℕ
  pub file_attributes : ℕ

abbrev pub close_request_fields : CloseRequest → List Field
close_request_fields req = uint 2 0 24 ∷ uint 2 2 req.flags ∷ bytes 16 8 req.file_id ∷ []

unfoldable pub encode_close_request : CloseRequest → IoVectors → Option IoVectors
unfolding add_body
encode_close_request req = add_body 24 (close_request_fields req)

unfoldable pub cmd_close_async : Context → ℕ → ℕ → CloseRequest → Option Pdu
unfolding command_pdu encode_close_request
cmd_close_async c ref now req = command_pdu c ref now Command.close (encode_close_request req)

abbrev pub close_reply_fields : CloseReply → List Field
close_reply_fields rep =
    uint 2 0 60
    ∷ uint 2 2 rep.flags
    ∷ uint 8 8 rep.creation_time
    ∷ uint 8 16 rep.last_access_time
    ∷ uint 8 24 rep.last_write_time
    ∷ uint 8 32 rep.change_time
    ∷ uint 8 40 rep.allocation_size
    ∷ uint 8 48 rep.end_of_file
    ∷ uint 4 56 rep.file_attributes
    ∷ []

unfoldable pub encode_close_reply : CloseReply → IoVectors → Option IoVectors
unfolding add_body
encode_close_reply rep = add_body 60 (close_reply_fields rep)

unfoldable pub cmd_close_reply_async : Context → ℕ → ℕ → CloseReply → Option Pdu
unfolding command_pdu encode_close_reply
cmd_close_reply_async c ref now rep = command_pdu c ref now Command.close (encode_close_reply rep)

-- The parsers of the fixed parts; `none` is -1, and the 0 that is returned otherwise is left out.
unfoldable pub process_close_fixed : Iovec → Option CloseReply
unfolding is_sized read_field
process_close_fixed iov =
    if is_sized 60 iov
    then some (record {
      flags = read_field 2 iov 2;
      creation_time = read_field 8 iov 8;
      last_access_time = read_field 8 iov 16;
      last_write_time = read_field 8 iov 24;
      change_time = read_field 8 iov 32;
      allocation_size = read_field 8 iov 40;
      end_of_file = read_field 8 iov 48;
      file_attributes = read_field 4 iov 56;
    })
    else none

unfoldable pub process_close_request_fixed : Iovec → Option CloseRequest
unfolding is_sized read_field get_bytes
process_close_request_fixed iov =
    if is_sized 24 iov
    then some (record { flags = read_field 2 iov 2; file_id = get_bytes 16 iov.buf 8 })
    else none
