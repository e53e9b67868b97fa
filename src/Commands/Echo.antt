-- ===== src/Commands/Echo.antt =====
-- Sources/CSMB/lib/smb2-cmd-echo.c.
use photo_transfer_nativesmb.Common.{ℕ, [], ◌∷◌, if◌then◌else◌, Option}
use photo_transfer_nativesmb.Wire.{Iovec, Status, ok, fail}
use photo_transfer_nativesmb.Wire.Vectors.{IoVectors}
use photo_transfer_nativesmb.Smb2.{Pdu, Context}
use photo_transfer_nativesmb.Smb2.Command
use photo_transfer_nativesmb.Commands.Fields.{uint, add_body, command_pdu, is_sized}

unfoldable pub encode_echo_request : IoVectors → Option IoVectors
unfolding add_body
encode_echo_request = add_body 4 (uint 2 0 4 ∷ [])

unfoldable pub cmd_echo_async : Context → ℕ → ℕ → Option Pdu
unfolding command_pdu encode_echo_request
cmd_echo_async c ref now = command_pdu c ref now Command.echo encode_echo_request

unfoldable pub encode_echo_reply : IoVectors → Option IoVectors
unfolding add_body
encode_echo_reply = add_body 4 (uint 2 0 4 ∷ [])

unfoldable pub cmd_echo_reply_async : Context → ℕ → ℕ → Option Pdu
unfolding command_pdu encode_echo_reply
cmd_echo_reply_async c ref now = command_pdu c ref now Command.echo encode_echo_reply

unfoldable pub process_echo_fixed : Iovec → Status
unfolding is_sized
process_echo_fixed iov = if is_sized 4 iov then ok else fail

-- The payload of a request has no field that is read.
unfoldable pub process_echo_request_fixed : Iovec → Status
unfolding is_sized
process_echo_request_fixed iov = if is_sized 4 iov then ok else fail
