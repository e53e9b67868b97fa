-- ===== src/Commands/Flush.antt =====
-- Sources/CSMB/lib/smb2-cmd-flush.c, and its structures in Sources/CSMB/include/smb2/smb2.h.
use photo_transfer_nativesmb.Common.{ℕ, List, [], ◌∷◌, if◌then◌else◌, Option, none, some}
use photo_transfer_nativesmb.Wire.{Iovec, Status, ok, fail, get_bytes}
use photo_transfer_nativesmb.Wire.Vectors.{IoVectors}
use photo_transfer_nativesmb.Smb2.{Pdu, Context}
use photo_transfer_nativesmb.Smb2.Command
use photo_transfer_nativesmb.Commands.Fields.{Field, uint, bytes, add_body, command_pdu, is_sized}

pub record FlushRequest : Type 0 where
  pub file_id : List ℕ

abbrev pub flush_request_fields : FlushRequest → List Field
flush_request_fields req = uint 2 0 24 ∷ bytes 16 8 req.file_id ∷ []

unfoldable pub encode_flush_request : FlushRequest → IoVectors → Option IoVectors
unfolding add_body
encode_flush_request req = add_body 24 (flush_request_fields req)

unfoldable pub cmd_flush_async : Context → ℕ → ℕ → FlushRequest → Option Pdu
unfolding command_pdu encode_flush_request
cmd_flush_async c ref now req = command_pdu c ref now Command.flush (encode_flush_request req)

unfoldable pub encode_flush_reply : IoVectors → Option IoVectors
unfolding add_body
encode_flush_reply = add_body 4 (uint 2 0 4 ∷ [])

unfoldable pub cmd_flush_reply_async : Context → ℕ → ℕ → Option Pdu
unfolding command_pdu encode_flush_reply
cmd_flush_reply_async c ref now = command_pdu c ref now Command.flush encode_flush_reply

unfoldable pub process_flush_fixed : Iovec → Status
unfolding is_sized
process_flush_fixed iov = if is_sized 4 iov then ok else fail

unfoldable pub process_flush_request_fixed : Iovec → Option FlushRequest
unfolding is_sized get_bytes
process_flush_request_fixed iov =
    if is_sized 24 iov then some (record { file_id = get_bytes 16 iov.buf 8 }) else none
