-- ===== src/Commands/Logoff.antt =====
-- Sources/CSMB/lib/smb2-cmd-logoff.c.
use photo_transfer_nativesmb.Common.{ℕ, [], ◌∷◌, if◌then◌else◌, Option}
use photo_transfer_nativesmb.Wire.{Iovec, Status, ok, fail}
use photo_transfer_nativesmb.Wire.Vectors.{IoVectors}
use photo_transfer_nativesmb.Smb2.{Pdu, Context}
use photo_transfer_nativesmb.Smb2.Command
use photo_transfer_nativesmb.Commands.Fields.{uint, add_body, command_pdu, is_sized}

unfoldable pub encode_logoff_request : IoVectors → Option IoVectors
unfolding add_body
encode_logoff_request = add_body 4 (uint 2 0 4 ∷ [])

unfoldable pub cmd_logoff_async : Context → ℕ → ℕ → Option Pdu
unfolding command_pdu encode_logoff_request
cmd_logoff_async c ref now = command_pdu c ref now Command.logoff encode_logoff_request

unfoldable pub encode_logoff_reply : IoVectors → Option IoVectors
unfolding add_body
encode_logoff_reply = add_body 4 (uint 2 0 4 ∷ [])

unfoldable pub cmd_logoff_reply_async : Context → ℕ → ℕ → Option Pdu
unfolding command_pdu encode_logoff_reply
cmd_logoff_reply_async c ref now = command_pdu c ref now Command.logoff encode_logoff_reply

unfoldable pub process_logoff_fixed : Iovec → Status
process_logoff_fixed iov = ok

unfoldable pub process_logoff_request_fixed : Iovec → Status
unfolding is_sized
process_logoff_request_fixed iov = if is_sized 4 iov then ok else fail
