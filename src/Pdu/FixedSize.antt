-- ===== src/Pdu/FixedSize.antt =====
-- Sources/CSMB/lib/pdu.c: smb2_get_fixed_size, the size of the fixed part of a command's body, by
-- the constants of Sources/CSMB/include/smb2/smb2.h.
use photo_transfer_nativesmb.Common.{
  ℕ, List, [], ◌∷◌, ◌==◌, if◌then◌else◌, Option, none, some, bit_and,
}
use photo_transfer_nativesmb.Smb2.{Header, Pdu, Context}
use photo_transfer_nativesmb.Smb2.Command
use photo_transfer_nativesmb.Pdu.{is_error_response}

-- A `switch` that returns a constant for each command; `none` is the -1 behind it.
unfoldable pub size_of : List (ℕ × ℕ) → ℕ → Option ℕ
size_of [] command = none
size_of ((c, size) ∷ sizes) command = if c == command then some size else size_of sizes command

abbrev pub error_reply_size : ℕ
error_reply_size = 9

abbrev pub reply_sizes : List (ℕ × ℕ)
reply_sizes =
    (Command.negotiate, 65)
    ∷ (Command.session_setup, 9)
    ∷ (Command.logoff, 4)
    ∷ (Command.tree_connect, 16)
    ∷ (Command.tree_disconnect, 4)
    ∷ (Command.create, 89)
    ∷ (Command.close, 60)
    ∷ (Command.flush, 4)
    ∷ (Command.read, 17)
    ∷ (Command.write, 17)
    ∷ (Command.lock, 4)
    ∷ (Command.echo, 4)
    ∷ (Command.query_directory, 9)
    ∷ (Command.change_notify, 9)
    ∷ (Command.query_info, 9)
    ∷ (Command.set_info, 2)
    ∷ (Command.ioctl, 49)
    ∷ (Command.oplock_break, 2)
    ∷ []

abbrev pub request_sizes : List (ℕ × ℕ)
request_sizes =
    (Command.negotiate, 36)
    ∷ (Command.session_setup, 25)
    ∷ (Command.logoff, 4)
    ∷ (Command.tree_connect, 9)
    ∷ (Command.tree_disconnect, 4)
    ∷ (Command.create, 57)
    ∷ (Command.close, 24)
    ∷ (Command.flush, 24)
    ∷ (Command.read, 49)
    ∷ (Command.write, 49)
    ∷ (Command.lock, 48)
    ∷ (Command.cancel, 4)
    ∷ (Command.echo, 4)
    ∷ (Command.query_directory, 33)
    ∷ (Command.change_notify, 32)
    ∷ (Command.query_info, 41)
    ∷ (Command.set_info, 33)
    ∷ (Command.ioctl, 57)
    ∷ (Command.oplock_break, 2)
    ∷ []

-- `hdr` is `smb2->hdr`, whose status tells an error.
unfoldable pub get_fixed_reply_size : Header → Pdu → Option ℕ
unfolding size_of is_error_response
get_fixed_reply_size hdr pdu =
    if is_error_response hdr.status
    then some (bit_and error_reply_size 0xfffe)
    else size_of reply_sizes pdu.header.command

unfoldable pub get_fixed_request_size : Pdu → Option ℕ
unfolding size_of
get_fixed_request_size pdu = size_of request_sizes pdu.header.command

unfoldable pub get_fixed_size : Context → Header → Pdu → Option ℕ
unfolding get_fixed_request_size get_fixed_reply_size
get_fixed_size c hdr pdu =
    if c.is_server then get_fixed_request_size pdu else get_fixed_reply_size hdr pdu
