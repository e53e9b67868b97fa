-- ===== src/Commands/OplockBreak.antt =====
-- Sources/CSMB/lib/smb2-cmd-oplock-break.c, and its structures in Sources/CSMB/include/smb2/smb2.h.
use photo_transfer_nativesmb.Common.{
  ℕ, ◌-◌, ◌^◌, List, [], ◌∷◌, ◌++◌, ◌||◌, ◌==◌, if◌then◌else◌, Option, none, some,
}
use photo_transfer_nativesmb.Wire.{Iovec, get_bytes}
use photo_transfer_nativesmb.Wire.Vectors.{IoVectors}
use photo_transfer_nativesmb.Smb2.{Header, Pdu, Context}
use photo_transfer_nativesmb.Smb2.Command
use photo_transfer_nativesmb.Commands.Fields.{
  Field, uint, bytes, add_body, ◌then◌, command_pdu, read_field,
}

-- An acknowledgement, a reply and a notification of a broken oplock have the same fields.
pub record OplockBreak : Type 0 where
  pub oplock_level : ℕ
  pub file_id : List ℕ

-- An acknowledgement and a reply of a broken lease have the same fields.
pub record LeaseBreak : Type 0 where
  pub flags : ℕ
  pub lease_key : List ℕ
  pub lease_state : ℕ
  pub lease_duration : ℕ

pub record LeaseBreakNotification : Type 0 where
  pub new_epoch : ℕ
  pub flags : ℕ
  pub lease_key : List ℕ
  pub current_lease_state : ℕ
  pub new_lease_state : ℕ
  pub break_reason : ℕ
  pub access_mask_hint : ℕ
  pub share_mask_hint : ℕ

abbrev pub oplock_break_fields : OplockBreak → List Field
oplock_break_fields req = uint 2 0 24 ∷ uint 1 2 req.oplock_level ∷ bytes 16 8 req.file_id ∷ []

unfoldable pub encode_oplock_break_acknowledgement : OplockBreak → IoVectors → Option IoVectors
unfolding add_body
encode_oplock_break_acknowledgement req = add_body 24 (oplock_break_fields req)

unfoldable pub cmd_oplock_break_async : Context → ℕ → ℕ → OplockBreak → Option Pdu
unfolding command_pdu encode_oplock_break_acknowledgement
cmd_oplock_break_async c ref now req =
    command_pdu c ref now Command.oplock_break (encode_oplock_break_acknowledgement req)

unfoldable pub encode_oplock_break_reply : OplockBreak → IoVectors → Option IoVectors
unfolding add_body
encode_oplock_break_reply rep = add_body 24 (oplock_break_fields rep)

unfoldable pub cmd_oplock_break_reply_async : Context → ℕ → ℕ → OplockBreak → Option Pdu
unfolding command_pdu encode_oplock_break_reply
cmd_oplock_break_reply_async c ref now rep =
    command_pdu c ref now Command.oplock_break (encode_oplock_break_reply rep)

unfoldable pub encode_oplock_break_notification : OplockBreak → IoVectors → Option IoVectors
unfolding add_body
encode_oplock_break_notification rep = add_body 24 (oplock_break_fields rep)

unfoldable pub cmd_oplock_break_notification_async : Context → ℕ → ℕ → OplockBreak → Option Pdu
unfolding command_pdu encode_oplock_break_notification
cmd_oplock_break_notification_async c ref now rep =
    command_pdu c ref now Command.oplock_break (encode_oplock_break_notification rep)

-- The state and the duration are written over the flags, as in the notification below.
abbrev pub lease_break_ack_fields : LeaseBreak → List Field
lease_break_ack_fields req =
    uint 2 0 36
    ∷ uint 4 4 req.flags
    ∷ bytes 16 8 req.lease_key
    ∷ uint 4 4 req.lease_state
    ∷ uint 4 4 req.lease_duration
    ∷ []

unfoldable pub encode_lease_break_acknowledgement : LeaseBreak → IoVectors → Option IoVectors
unfolding add_body
encode_lease_break_acknowledgement req = add_body 36 (lease_break_ack_fields req)

unfoldable pub cmd_lease_break_async : Context → ℕ → ℕ → LeaseBreak → Option Pdu
unfolding command_pdu encode_lease_break_acknowledgement
cmd_lease_break_async c ref now req =
    command_pdu c ref now Command.oplock_break (encode_lease_break_acknowledgement req)

abbrev pub lease_break_reply_fields : LeaseBreak → List Field
lease_break_reply_fields rep =
    uint 2 0 36
    ∷ uint 4 4 rep.flags
    ∷ bytes 16 8 rep.lease_key
    ∷ uint 4 24 rep.lease_state
    ∷ uint 4 28 rep.lease_duration
    ∷ []

unfoldable pub encode_lease_break_reply : LeaseBreak → IoVectors → Option IoVectors
unfolding add_body
encode_lease_break_reply rep = add_body 36 (lease_break_reply_fields rep)

unfoldable pub cmd_lease_break_reply_async : Context → ℕ → ℕ → LeaseBreak → Option Pdu
unfolding command_pdu encode_lease_break_reply
cmd_lease_break_reply_async c ref now rep =
    command_pdu c ref now Command.oplock_break (encode_lease_break_reply rep)

abbrev pub lease_break_notification_fields : LeaseBreakNotification → List Field
lease_break_notification_fields req =
    uint 2 0 44
    ∷ uint 2 2 req.new_epoch
    ∷ uint 4 4 req.flags
    ∷ bytes 16 8 req.lease_key
    ∷ uint 4 4 req.current_lease_state
    ∷ uint 4 4 req.new_lease_state
    ∷ uint 4 4 req.break_reason
    ∷ uint 4 4 req.access_mask_hint
    ∷ uint 4 4 req.share_mask_hint
    ∷ []

unfoldable pub encode_lease_break_notification :
    LeaseBreakNotification → IoVectors → Option IoVectors
unfolding add_body
encode_lease_break_notification req = add_body 44 (lease_break_notification_fields req)

unfoldable pub cmd_lease_break_notification_async :
    Context → ℕ → ℕ → LeaseBreakNotification → Option Pdu
unfolding command_pdu encode_lease_break_notification
cmd_lease_break_notification_async c ref now req =
    command_pdu c ref now Command.oplock_break (encode_lease_break_notification req)

-- The size that was read tells what follows, and its length without the size itself.
unfoldable pub process_oplock_break_fixed : Iovec → Option (ℕ × ℕ)
unfolding read_field
process_oplock_break_fixed iov =
    let size = read_field 2 iov 0 in
    if size == 24 || (size == 44 || size == 36) then some (size, size - 2) else none

unfoldable pub process_oplock_break_request_fixed : Iovec → Option (ℕ × ℕ)
unfolding read_field
process_oplock_break_request_fixed iov =
    let size = read_field 2 iov 0 in
    if size == 24 || size == 36 then some (size, size - 2) else none

-- `break_type` with the member of the union that it tells.
pub data Break : Type 0 where
  oplock_notification oplock_response oplock_acknowledge : OplockBreak → Break
  lease_notification : LeaseBreakNotification → Break
  lease_response lease_acknowledge : LeaseBreak → Break

-- The reads behind the two bytes of the size.
unfoldable pub read_oplock : Iovec → OplockBreak
unfolding read_field
read_oplock iov = record { oplock_level = read_field 1 iov 0; file_id = get_bytes 16 iov.buf 6 }

unfoldable pub read_lease : Iovec → LeaseBreak
unfolding read_field
read_lease iov = record {
  flags = read_field 4 iov 2;
  lease_key = get_bytes 16 iov.buf 6;
  lease_state = read_field 4 iov 22;
  lease_duration = read_field 8 iov 26;
}

unfoldable pub read_lease_notification : Iovec → LeaseBreakNotification
unfolding read_field
read_lease_notification iov = record {
  new_epoch = read_field 2 iov 0;
  flags = read_field 4 iov 2;
  lease_key = get_bytes 16 iov.buf 6;
  current_lease_state = read_field 4 iov 22;
  new_lease_state = read_field 4 iov 26;
  break_reason = read_field 4 iov 30;
  access_mask_hint = read_field 4 iov 34;
  share_mask_hint = read_field 4 iov 38;
}

-- The key of a reply is copied to where the key of a notification is in the union, four bytes behind
-- its own place; the state then hides its last four bytes. `junk` are the four bytes before it.
unfoldable pub misplace_key : List ℕ → LeaseBreak → LeaseBreak
unfolding get_bytes
misplace_key junk rep = record rep {
  lease_key = get_bytes 4 junk 0 ++ get_bytes 12 rep.lease_key 0;
}

-- `hdr` is `smb2->hdr`: only a notification has the message id with all bits set.
unfoldable pub process_oplock_break_variable : List ℕ → Header → ℕ → Iovec → Option Break
unfolding read_oplock read_lease read_lease_notification misplace_key
process_oplock_break_variable junk hdr size iov =
    if size == 24
    then some (
        if hdr.message_id == 2 ^ 64 - 1
        then oplock_notification (read_oplock iov)
        else oplock_response (read_oplock iov))
    else (if size == 44
        then some (lease_notification (read_lease_notification iov))
        else (if size == 36
            then some (lease_response (misplace_key junk (read_lease iov)))
            else none))

unfoldable pub process_oplock_break_request_variable : ℕ → Iovec → Option Break
unfolding read_oplock read_lease
process_oplock_break_request_variable size iov =
    if size == 24
    then some (oplock_acknowledge (read_oplock iov))
    else (if size == 36 then some (lease_acknowledge (read_lease iov)) else none)
