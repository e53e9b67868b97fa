-- ===== src/Commands/RoundTrips.antt =====
-- The fixed parts of the replies that a server makes are read back by a client.
use photo_transfer_nativesmb.Common.{ℕ, ◌+◌, ◌<◌, ◌^◌, ◌≡◌, refl, List, [], none, some, arith, ◌⊎◌}
use photo_transfer_nativesmb.Smb2.{Header, Context, header_size}
use photo_transfer_nativesmb.Commands.Fields.{body, is_sized, read_field}
use photo_transfer_nativesmb.Commands.Lookup.{cut, get_uint-body, read_field-body}
use photo_transfer_nativesmb.Commands.Close.{CloseReply, close_reply_fields, process_close_fixed}
use photo_transfer_nativesmb.Commands.TreeConnect.{
  TreeConnectReply, tree_connect_reply_fields, process_tree_connect_fixed,
}
use photo_transfer_nativesmb.Commands.Read.{
  ReadReply, read_reply_fields, read_data_offset, process_read_fixed,
}
use photo_transfer_nativesmb.Commands.Write.{WriteReply, write_reply_fields, process_write_fixed}
use photo_transfer_nativesmb.Commands.ChangeNotify.{
  ChangeNotifyReply, change_notify_reply_fields, process_change_notify_fixed,
}
use photo_transfer_nativesmb.Commands.ErrorReply.{
  ErrorReply, error_reply_fields, process_error_fixed,
}

-- Every field fits its width, and a length of what follows is a positive `int`.
pub record IsCloseReply (rep : CloseReply) : Type 0 where
  pub flags : rep.flags < 256 ^ 2
  pub creation_time : rep.creation_time < 256 ^ 8
  pub last_access_time : rep.last_access_time < 256 ^ 8
  pub last_write_time : rep.last_write_time < 256 ^ 8
  pub change_time : rep.change_time < 256 ^ 8
  pub allocation_size : rep.allocation_size < 256 ^ 8
  pub end_of_file : rep.end_of_file < 256 ^ 8
  pub file_attributes : rep.file_attributes < 256 ^ 4

pub record IsTreeConnectReply (rep : TreeConnectReply) : Type 0 where
  pub share_type : rep.share_type < 256 ^ 1
  pub share_flags : rep.share_flags < 256 ^ 4
  pub capabilities : rep.capabilities < 256 ^ 4
  pub maximal_access : rep.maximal_access < 256 ^ 4

pub record IsReadReply (rep : ReadReply) : Type 0 where
  pub data_length : rep.data_length < 2 ^ 31
  pub data_remaining : rep.data_remaining < 256 ^ 4

pub record IsWriteReply (rep : WriteReply) : Type 0 where
  pub count : rep.count < 256 ^ 4
  pub remaining : rep.remaining < 256 ^ 4

pub record IsChangeNotifyReply (rep : ChangeNotifyReply) : Type 0 where
  pub output_buffer_length : rep.output_buffer_length < 2 ^ 31

pub record IsErrorReply (rep : ErrorReply) : Type 0 where
  pub error_context_count : rep.error_context_count < 256 ^ 1
  pub byte_count : rep.byte_count < 2 ^ 31

pub close_read :
    (rep : CloseReply)
    → IsCloseReply rep
    → process_close_fixed (cut 60 (body 60 (close_reply_fields rep))) ≡ some rep
unfolding process_close_fixed is_sized
close_read rep w =
    let f = read_field-body 60 60 (close_reply_fields rep) (omega arith) in
    ground (
      arith,
      get_uint-body 60 60 (close_reply_fields rep) (omega arith) 2 0 60 (omega arith) (omega arith)
          refl,
      f 2 2 rep.flags (omega arith) (w.flags) refl,
      f 8 8 rep.creation_time (omega arith) (w.creation_time) refl,
      f 8 16 rep.last_access_time (omega arith) (w.last_access_time) refl,
      f 8 24 rep.last_write_time (omega arith) (w.last_write_time) refl,
      f 8 32 rep.change_time (omega arith) (w.change_time) refl,
      f 8 40 rep.allocation_size (omega arith) (w.allocation_size) refl,
      f 8 48 rep.end_of_file (omega arith) (w.end_of_file) refl,
      f 4 56 rep.file_attributes (omega arith) (w.file_attributes) refl,
    )

pub tree_connect_read :
    (c : Context) (hdr : Header) (rep : TreeConnectReply)
    → IsTreeConnectReply rep
    → (process_tree_connect_fixed c hdr (cut 16 (body 16 (tree_connect_reply_fields rep)))).0
      ≡ some rep
unfolding process_tree_connect_fixed is_sized
tree_connect_read c hdr rep w =
    let f = read_field-body 16 16 (tree_connect_reply_fields rep) (omega arith) in
    ground (
      arith,
      get_uint-body 16 16 (tree_connect_reply_fields rep) (omega arith) 2 0 16 (omega arith)
          (omega arith) refl,
      f 1 2 rep.share_type (omega arith) (w.share_type) refl,
      f 4 4 rep.share_flags (omega arith) (w.share_flags) refl,
      f 4 8 rep.capabilities (omega arith) (w.capabilities) refl,
      f 4 12 rep.maximal_access (omega arith) (w.maximal_access) refl,
    )

-- The reply as it is parsed: the data are not there yet, and their offset is what the encoder set.
abbrev pub parsed_read : ReadReply → ReadReply
parsed_read rep = record rep { data_offset = read_data_offset rep; payload = none }

small : (rep : ReadReply) → read_data_offset rep < 256 ^ 1
small rep = ground arith

-- The data that the length tells are there.
abbrev pub IsWhole : ReadReply → Type 0
IsWhole rep = (rep.data_length ≡ 0) ⊎ ((xs : List ℕ) × (rep.payload ≡ some xs))

pub read_read :
    (rep : ReadReply)
    → IsReadReply rep
    → IsWhole rep
    → process_read_fixed (cut 16 (body 16 (read_reply_fields rep)))
      ≡ some (parsed_read rep, rep.data_length)
unfolding process_read_fixed is_sized read_field
read_read rep w d =
    let f = read_field-body 16 16 (read_reply_fields rep) (omega arith) in
    ground (
      arith,
      d,
      w.data_length,
      get_uint-body 16 16 (read_reply_fields rep) (omega arith) 2 0 17 (omega arith) (omega arith)
          refl,
      f 1 2 (read_data_offset rep) (omega arith) (small rep) refl,
      f 4 4 rep.data_length (omega arith) (omega (arith, w.data_length)) refl,
      f 4 8 rep.data_remaining (omega arith) (w.data_remaining) refl,
    )

pub write_read :
    (rep : WriteReply)
    → IsWriteReply rep
    → process_write_fixed (cut 16 (body 17 (write_reply_fields rep))) ≡ some rep
unfolding process_write_fixed is_sized
write_read rep w =
    let f = read_field-body 16 17 (write_reply_fields rep) (omega arith) in
    ground (
      arith,
      get_uint-body 16 17 (write_reply_fields rep) (omega arith) 2 0 17 (omega arith) (omega arith)
          refl,
      f 4 4 rep.count (omega arith) (w.count) refl,
      f 4 8 rep.remaining (omega arith) (w.remaining) refl,
    )

abbrev pub parsed_change : ChangeNotifyReply → ChangeNotifyReply
parsed_change rep = record rep { output_buffer_offset = header_size + 32; output = [] }

pub change_read :
    (rep : ChangeNotifyReply)
    → IsChangeNotifyReply rep
    → process_change_notify_fixed (cut 8 (body 8 (change_notify_reply_fields rep)))
      ≡ some (parsed_change rep, rep.output_buffer_length)
unfolding process_change_notify_fixed is_sized
change_read rep w =
    let f = read_field-body 8 8 (change_notify_reply_fields rep) (omega arith) in
    ground (
      arith,
      w.output_buffer_length,
      get_uint-body 8 8 (change_notify_reply_fields rep) (omega arith) 2 0 9 (omega arith)
          (omega arith) refl,
      f 2 2 96 (omega arith) (omega arith) refl,
      f 4 4 rep.output_buffer_length (omega arith) (omega (arith, w.output_buffer_length)) refl,
    )

pub error_read :
    (rep : ErrorReply)
    → IsErrorReply rep
    → process_error_fixed (cut 8 (body 9 (error_reply_fields rep))) ≡ some (rep, rep.byte_count)
unfolding process_error_fixed is_sized
error_read rep w =
    let f = read_field-body 8 9 (error_reply_fields rep) (omega arith) in
    ground (
      arith,
      w.byte_count,
      get_uint-body 8 9 (error_reply_fields rep) (omega arith) 2 0 9 (omega arith) (omega arith)
          refl,
      f 1 2 rep.error_context_count (omega arith) (w.error_context_count) refl,
      f 4 4 rep.byte_count (omega arith) (omega (arith, w.byte_count)) refl,
    )
