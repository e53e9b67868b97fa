-- ===== src/Commands/Dispatch.antt =====
-- Sources/CSMB/lib/pdu.c: smb2_process_reply_payload_fixed and smb2_process_request_payload_fixed,
-- which hand the fixed part of a body to the parser of its command.
use photo_transfer_nativesmb.Common.{ℕ, List, [], ◌∷◌, ◌==◌, if◌then◌else◌, Option, none, some}
use photo_transfer_nativesmb.Wire.{Iovec, Status, ok, fail}
use photo_transfer_nativesmb.Smb2.{Header, Pdu, Context}
use photo_transfer_nativesmb.Smb2.Command
use photo_transfer_nativesmb.Pdu.{is_error_response}
use photo_transfer_nativesmb.Commands.Fields.{Limits}
use photo_transfer_nativesmb.Commands.Close.{
  CloseRequest, CloseReply, process_close_fixed, process_close_request_fixed,
}
use photo_transfer_nativesmb.Commands.Flush.{
  FlushRequest, process_flush_fixed, process_flush_request_fixed,
}
use photo_transfer_nativesmb.Commands.Echo.{process_echo_fixed, process_echo_request_fixed}
use photo_transfer_nativesmb.Commands.Logoff.{process_logoff_fixed, process_logoff_request_fixed}
use photo_transfer_nativesmb.Commands.TreeConnect.{
  TreeConnectRequest, TreeConnectReply, process_tree_connect_fixed,
  process_tree_connect_request_fixed,
}
use photo_transfer_nativesmb.Commands.TreeDisconnect.{process_tree_disconnect_fixed}
use photo_transfer_nativesmb.Commands.Read.{
  ReadRequest, ReadReply, process_read_fixed, process_read_request_fixed,
}
use photo_transfer_nativesmb.Commands.Write.{
  WriteRequest, WriteReply, process_write_fixed, process_write_request_fixed,
}
use photo_transfer_nativesmb.Commands.Lock.{
  LockRequest, process_lock_fixed, process_lock_request_fixed,
}
use photo_transfer_nativesmb.Commands.ChangeNotify.{
  ChangeNotifyRequest, ChangeNotifyReply, process_change_notify_fixed,
  process_change_notify_request_fixed,
}
use photo_transfer_nativesmb.Commands.OplockBreak.{
  process_oplock_break_fixed, process_oplock_break_request_fixed,
}
use photo_transfer_nativesmb.Commands.ErrorReply.{ErrorReply, process_error_fixed}

-- `pdu->payload`, by the structure that it points to.
pub data Reply : Type 0 where
  no_reply : Reply
  close_reply : CloseReply → Reply
  tree_connect_reply : TreeConnectReply → Reply
  read_reply : ReadReply → Reply
  write_reply : WriteReply → Reply
  change_notify_reply : ChangeNotifyReply → Reply
  break_size : ℕ → Reply
  error_reply : ErrorReply → Reply
  other_reply : List ℕ → Reply

pub data Request : Type 0 where
  no_request : Request
  close_request : CloseRequest → Request
  flush_request : FlushRequest → Request
  tree_connect_request : TreeConnectRequest → Request
  read_request : ReadRequest → Request
  write_request : WriteRequest → Request
  lock_request : LockRequest → Request
  change_notify_request : ChangeNotifyRequest → Request
  break_request_size : ℕ → Request
  other_request : List ℕ → Request

-- The payload and the length of what follows; `none` is a negative result.
abbrev pub Parsed : Type 0 → Type 0
Parsed A = Option (A × ℕ)

-- A payload with nothing behind it, a payload with its length, and a status alone.
abbrev pub whole : {A B : Type 0} → (A → B) → Option A → Parsed B
whole f none = none
whole f (some a) = some (f a, 0)

abbrev pub begun : {A B : Type 0} → (A → B) → Option (A × ℕ) → Parsed B
begun f none = none
begun f (some (a, len)) = some (f a, len)

abbrev pub checked : {B : Type 0} → B → Status → Parsed B
checked b ok = some (b, 0)
checked b fail = none

-- A `switch` on the command.
unfoldable pub switch : {A : Type 0} → List (ℕ × A) → A → ℕ → A
switch [] default command = default
switch ((k, a) ∷ cases) default command = if k == command then a else switch cases default command

-- The commands whose bodies are not modelled are `other`: negotiate, session setup, create, query
-- directory, query info, set info and ioctl.
unfoldable pub parse_reply :
    (ℕ → Iovec → Parsed Reply) → Context → Header → ℕ → Iovec → Parsed Reply × Context
unfolding switch process_close_fixed process_flush_fixed process_echo_fixed process_logoff_fixed
    process_tree_connect_fixed process_tree_disconnect_fixed process_read_fixed process_write_fixed
    process_lock_fixed process_change_notify_fixed process_oplock_break_fixed
parse_reply other c hdr command iov =
    let (connected, c1) = process_tree_connect_fixed c hdr iov in
    let (disconnected, c2) = process_tree_disconnect_fixed c hdr in
    switch
      ((Command.negotiate, (other command iov, c))
        ∷ (Command.session_setup, (other command iov, c))
        ∷ (Command.logoff, (checked no_reply (process_logoff_fixed iov), c))
        ∷ (Command.tree_connect, (whole tree_connect_reply connected, c1))
        ∷ (Command.tree_disconnect, (checked no_reply disconnected, c2))
        ∷ (Command.create, (other command iov, c))
        ∷ (Command.close, (whole close_reply (process_close_fixed iov), c))
        ∷ (Command.flush, (checked no_reply (process_flush_fixed iov), c))
        ∷ (Command.read, (begun read_reply (process_read_fixed iov), c))
        ∷ (Command.write, (whole write_reply (process_write_fixed iov), c))
        ∷ (Command.echo, (checked no_reply (process_echo_fixed iov), c))
        ∷ (Command.lock, (checked no_reply (process_lock_fixed iov), c))
        ∷ (Command.query_directory, (other command iov, c))
        ∷ (Command.change_notify, (begun change_notify_reply (process_change_notify_fixed iov), c))
        ∷ (Command.query_info, (other command iov, c))
        ∷ (Command.set_info, (other command iov, c))
        ∷ (Command.ioctl, (other command iov, c))
        ∷ (Command.oplock_break, (begun break_size (process_oplock_break_fixed iov), c))
        ∷ [])
      (some (no_reply, 0), c) command

-- An error has a body of its own, whatever the command.
unfoldable pub process_reply_payload_fixed :
    (ℕ → Iovec → Parsed Reply) → Context → Header → Pdu → Iovec → Parsed Reply × Context
unfolding is_error_response process_error_fixed parse_reply
process_reply_payload_fixed other c hdr pdu iov =
    if is_error_response hdr.status
    then (begun error_reply (process_error_fixed iov), c)
    else parse_reply other c hdr pdu.header.command iov

unfoldable pub process_request_payload_fixed :
    (ℕ → Iovec → Parsed Request) → Limits → ℕ → Pdu → Iovec → Parsed Request
unfolding switch process_close_request_fixed process_flush_request_fixed process_echo_request_fixed
    process_logoff_request_fixed process_tree_connect_request_fixed process_read_request_fixed
    process_write_request_fixed process_lock_request_fixed process_change_notify_request_fixed
    process_oplock_break_request_fixed
process_request_payload_fixed other limits junk pdu iov =
    let command = pdu.header.command in
    switch
      ((Command.negotiate, other command iov)
        ∷ (Command.session_setup, other command iov)
        ∷ (Command.logoff, checked no_request (process_logoff_request_fixed iov))
        ∷ (
          Command.tree_connect,
          begun tree_connect_request (process_tree_connect_request_fixed iov),
        )
        ∷ (Command.tree_disconnect, some (no_request, 0))
        ∷ (Command.create, other command iov)
        ∷ (Command.close, whole close_request (process_close_request_fixed iov))
        ∷ (Command.flush, whole flush_request (process_flush_request_fixed iov))
        ∷ (Command.read, begun read_request (process_read_request_fixed limits iov))
        ∷ (Command.write, begun write_request (process_write_request_fixed iov))
        ∷ (Command.echo, checked no_request (process_echo_request_fixed iov))
        ∷ (Command.lock, begun lock_request (process_lock_request_fixed iov))
        ∷ (Command.cancel, some (no_request, 0))
        ∷ (Command.query_directory, other command iov)
        ∷ (
          Command.change_notify,
          whole change_notify_request (process_change_notify_request_fixed junk iov),
        )
        ∷ (Command.query_info, other command iov)
        ∷ (Command.set_info, other command iov)
        ∷ (Command.ioctl, other command iov)
        ∷ (Command.oplock_break, begun break_request_size (process_oplock_break_request_fixed iov))
        ∷ [])
      none command
