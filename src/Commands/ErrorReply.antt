-- ===== src/Commands/ErrorReply.antt =====
-- Sources/CSMB/lib/smb2-cmd-error.c, and its structure in Sources/CSMB/include/smb2/smb2.h.
use photo_transfer_nativesmb.Common.{ℕ, ◌%◌, ◌^◌, List, [], ◌∷◌, if◌then◌else◌, Option, none, some}
use photo_transfer_nativesmb.Wire.{Iovec}
use photo_transfer_nativesmb.Wire.Vectors.{IoVectors}
use photo_transfer_nativesmb.Smb2.{Pdu, Context}
use photo_transfer_nativesmb.Commands.Fields.{
  returned, Field, uint, add_body, with_body, is_sized, read_field,
}
use photo_transfer_nativesmb.Pdu.{allocate_pdu}

pub record ErrorReply : Type 0 where
  pub error_context_count : ℕ
  pub byte_count : ℕ

abbrev pub error_reply_fields : ErrorReply → List Field
error_reply_fields rep =
    uint 2 0 9 ∷ uint 1 2 rep.error_context_count ∷ uint 4 4 rep.byte_count ∷ []

unfoldable pub encode_error_reply : ErrorReply → IoVectors → Option IoVectors
unfolding add_body
encode_error_reply rep = add_body 9 (error_reply_fields rep)

-- The PDU has the command that failed and the status.
unfoldable pub cmd_error_reply_async : Context → ℕ → ℕ → ErrorReply → ℕ → ℕ → Option Pdu
unfolding allocate_pdu with_body encode_error_reply
cmd_error_reply_async c ref now rep causing_command status =
    elim (allocate_pdu c ref now (causing_command % 2 ^ 8)) [
      | none ↦ none
      | some p ↦
          with_body (encode_error_reply rep)
            (record p { header = record p.header { status = status } })
    ]

-- The bytes of error data follow; their count is returned. They are left out.
unfoldable pub process_error_fixed : Iovec → Option (ErrorReply × ℕ)
unfolding is_sized read_field
process_error_fixed iov =
    let rep : ErrorReply = record {
      error_context_count = read_field 1 iov 2;
      byte_count = read_field 4 iov 4;
    } in
    if is_sized 9 iov then returned rep rep.byte_count else none
