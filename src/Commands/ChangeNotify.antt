-- ===== src/Commands/ChangeNotify.antt =====
-- Sources/CSMB/lib/smb2-cmd-notify-change.c, and its structures in
-- Sources/CSMB/include/smb2/smb2.h.
use photo_transfer_nativesmb.Common.{
  ℕ, ◌+◌, ◌-◌, List, [], ◌∷◌, ◌++◌, ◌==◌, replicate, if◌then◌else◌, Option, none, some,
}
use photo_transfer_nativesmb.Wire.{Iovec, get_bytes}
use photo_transfer_nativesmb.Wire.Vectors.{IoVectors, add_iovector}
use photo_transfer_nativesmb.Smb2.{Pdu, Context, header_size}
use photo_transfer_nativesmb.Smb2.Command
use photo_transfer_nativesmb.Commands.Fields.{
  returned, Field, uint, bytes, add_body, ◌then◌, no_more, refuse, command_pdu, is_sized,
  read_field, pad_to_32, Limits,
}

pub record ChangeNotifyRequest : Type 0 where
  pub flags : ℕ
  pub output_buffer_length : ℕ
  pub file_id : List ℕ
  pub completion_filter : ℕ

pub record ChangeNotifyReply : Type 0 where
  pub output_buffer_offset : ℕ
  pub output_buffer_length : ℕ
  pub output : List ℕ

abbrev pub change_notify_request_fields : ChangeNotifyRequest → List Field
change_notify_request_fields req =
    uint 2 0 32
    ∷ uint 2 2 req.flags
    ∷ uint 4 4 req.output_buffer_length
    ∷ bytes 16 8 req.file_id
    ∷ uint 4 24 req.completion_filter
    ∷ []

unfoldable pub encode_change_notify_request : ChangeNotifyRequest → IoVectors → Option IoVectors
unfolding add_body
encode_change_notify_request req = add_body 32 (change_notify_request_fields req)

unfoldable pub cmd_change_notify_async : Context → ℕ → ℕ → ChangeNotifyRequest → Option Pdu
unfolding command_pdu encode_change_notify_request
cmd_change_notify_async c ref now req =
    command_pdu c ref now Command.change_notify (encode_change_notify_request req)

-- The offset is that of the end of a request, not of the reply.
abbrev pub change_notify_reply_fields : ChangeNotifyReply → List Field
change_notify_reply_fields rep =
    uint 2 0 9 ∷ uint 2 2 (header_size + 32) ∷ uint 4 4 rep.output_buffer_length ∷ []

-- The buffer has a multiple of four bytes, and the vector counts them all in `total_size`, but is
-- cut to those of the output.
unfoldable pub add_output : ℕ → List ℕ → IoVectors → Option IoVectors
unfolding add_iovector
add_output len xs out =
    let buf = get_bytes len xs 0 ++ replicate (pad_to_32 len - len) 0 in
    elim (add_iovector out (record { buf = buf; len = pad_to_32 len })) [
      | none ↦ none
      | some out' ↦ some (record out' { iov = out.iov ++ (record { buf = buf; len = len } ∷ []) })
    ]

unfoldable pub encode_change_notify_reply :
    Limits → ChangeNotifyReply → IoVectors → Option IoVectors
unfolding add_body add_output
encode_change_notify_reply limits rep =
    add_body 8 (change_notify_reply_fields rep)
    then (if rep.output_buffer_length == 0
        then no_more
        else (if limits.passthrough
            then add_output rep.output_buffer_length rep.output
            else refuse))

unfoldable pub cmd_change_notify_reply_async :
    Limits → Context → ℕ → ℕ → ChangeNotifyReply → Option Pdu
unfolding command_pdu encode_change_notify_reply
cmd_change_notify_reply_async limits c ref now rep =
    command_pdu c ref now Command.change_notify (encode_change_notify_reply limits rep)

-- The reply and the length of the output.
unfoldable pub process_change_notify_fixed : Iovec → Option (ChangeNotifyReply × ℕ)
unfolding is_sized read_field
process_change_notify_fixed iov =
    let rep : ChangeNotifyReply = record {
      output_buffer_offset = read_field 2 iov 2;
      output_buffer_length = read_field 4 iov 4;
      output = [];
    } in
    if is_sized 9 iov then returned rep rep.output_buffer_length else none

unfoldable pub process_change_notify_variable : Iovec → ChangeNotifyReply → ChangeNotifyReply
process_change_notify_variable iov rep = record rep { output = iov.buf }

-- `output_buffer_length` is not read: it keeps what `malloc` gave, here `junk`.
unfoldable pub process_change_notify_request_fixed : ℕ → Iovec → Option ChangeNotifyRequest
unfolding is_sized read_field get_bytes
process_change_notify_request_fixed junk iov =
    if is_sized 32 iov
    then some (record {
      flags = read_field 2 iov 2;
      output_buffer_length = junk;
      file_id = get_bytes 16 iov.buf 8;
      completion_filter = read_field 4 iov 24;
    })
    else none
