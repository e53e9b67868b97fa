-- ===== src/Commands/Questions.antt =====
-- The fixed parts of the requests that a client makes are read back by a server.
use photo_transfer_nativesmb.Common.{
  ℕ, ◌+◌, ◌<◌, ◌≤◌, ◌^◌, ◌≡◌, refl, List, [], none, some, arith, length, false,
}
use photo_transfer_nativesmb.Smb2.{header_size}
use photo_transfer_nativesmb.Commands.Fields.{body, is_sized, Limits}
use photo_transfer_nativesmb.Commands.Lookup.{
  cut, get_uint-body, read_field-body, get_bytes-body, read_field_clear,
}
use photo_transfer_nativesmb.Commands.Close.{
  CloseRequest, close_request_fields, process_close_request_fixed,
}
use photo_transfer_nativesmb.Commands.Flush.{
  FlushRequest, flush_request_fields, process_flush_request_fixed,
}
use photo_transfer_nativesmb.Commands.TreeConnect.{
  TreeConnectRequest, tree_connect_request_fields, process_tree_connect_request_fixed,
}
use photo_transfer_nativesmb.Commands.Read.{
  ReadRequest, read_request_fields, process_read_request_fixed,
}
use photo_transfer_nativesmb.Commands.Write.{
  WriteRequest, write_request_fields, process_write_request_fixed,
}
use photo_transfer_nativesmb.Commands.ChangeNotify.{
  ChangeNotifyRequest, change_notify_request_fields, process_change_notify_request_fixed,
}

-- Every field fits its width, a file id has 16 bytes, and the length of what follows is a positive
-- `int`.
abbrev pub IsFileId : List ℕ → Type 0
IsFileId xs = length xs ≡ 16

pub record IsCloseRequest (req : CloseRequest) : Type 0 where
  pub flags : req.flags < 256 ^ 2
  pub file_id : IsFileId req.file_id

pub record IsTreeConnectRequest (req : TreeConnectRequest) : Type 0 where
  pub flags : req.flags < 256 ^ 2
  pub path_length : req.path_length < 256 ^ 2

-- There is no channel information, and the server of those limits allows that much.
pub record IsReadRequest (server : Limits) (req : ReadRequest) : Type 0 where
  pub flags : req.flags < 256 ^ 1
  pub length : req.length < 256 ^ 4
  pub offset : req.offset < 256 ^ 8
  pub file_id : IsFileId req.file_id
  pub minimum_count : req.minimum_count < 256 ^ 4
  pub channel : req.channel < 256 ^ 4
  pub remaining_bytes : req.remaining_bytes < 256 ^ 4
  pub no_info : req.read_channel_info_length ≡ 0
  pub allowed : req.length ≤ server.max_read_size

pub record IsWriteRequest (req : WriteRequest) : Type 0 where
  pub length : req.length < 2 ^ 31
  pub offset : req.offset < 256 ^ 8
  pub file_id : IsFileId req.file_id
  pub channel : req.channel < 256 ^ 4
  pub remaining_bytes : req.remaining_bytes < 256 ^ 4
  pub no_info : req.write_channel_info_length ≡ 0
  pub flags : req.flags < 256 ^ 4

pub record IsChangeNotifyRequest (req : ChangeNotifyRequest) : Type 0 where
  pub flags : req.flags < 256 ^ 2
  pub file_id : IsFileId req.file_id
  pub completion_filter : req.completion_filter < 256 ^ 4

pub close_read :
    (req : CloseRequest)
    → IsCloseRequest req
    → process_close_request_fixed (cut 24 (body 24 (close_request_fields req))) ≡ some req
unfolding process_close_request_fixed is_sized
close_read req w =
    let fs = close_request_fields req in
    ground (
      arith,
      get_uint-body 24 24 fs (omega arith) 2 0 24 (omega arith) (omega arith) refl,
      read_field-body 24 24 fs (omega arith) 2 2 req.flags (omega arith) (w.flags) refl,
      get_bytes-body 24 24 fs (omega arith) 16 8 req.file_id (omega arith) refl (w.file_id),
    )

pub flush_read :
    (req : FlushRequest)
    → IsFileId req.file_id
    → process_flush_request_fixed (cut 24 (body 24 (flush_request_fields req))) ≡ some req
unfolding process_flush_request_fixed is_sized
flush_read req w =
    let fs = flush_request_fields req in
    ground (
      arith,
      get_uint-body 24 24 fs (omega arith) 2 0 24 (omega arith) (omega arith) refl,
      get_bytes-body 24 24 fs (omega arith) 16 8 req.file_id (omega arith) refl w,
    )

-- The requests as they are parsed: what follows the fixed part is not there yet, and the offsets
-- are those that the encoder set.
abbrev pub parsed_connect : TreeConnectRequest → TreeConnectRequest
parsed_connect req = record req { path_offset = header_size + 8; path = [] }

abbrev pub parsed_read : ReadRequest → ReadRequest
parsed_read req = record req {
  has_buf = false;
  read_channel_info_offset = 0;
  read_channel_info = none;
}

abbrev pub parsed_write : WriteRequest → WriteRequest
parsed_write req = record req {
  data_offset = header_size + 48;
  buf = [];
  write_channel_info_offset = 0;
  write_channel_info = none;
}

-- The length of the output is the one thing that is not read.
abbrev pub parsed_change : ℕ → ChangeNotifyRequest → ChangeNotifyRequest
parsed_change junk req = record req { output_buffer_length = junk }

pub tree_connect_read :
    (req : TreeConnectRequest)
    → IsTreeConnectRequest req
    → process_tree_connect_request_fixed (cut 8 (body 8 (tree_connect_request_fields req)))
      ≡ some (parsed_connect req, req.path_length)
unfolding process_tree_connect_request_fixed is_sized
tree_connect_read req w =
    let fs = tree_connect_request_fields req in
    let f = read_field-body 8 8 fs (omega arith) in
    ground (
      arith,
      get_uint-body 8 8 fs (omega arith) 2 0 9 (omega arith) (omega arith) refl,
      f 2 2 req.flags (omega arith) (w.flags) refl,
      f 2 4 (header_size + 8) (omega arith) (omega arith) refl,
      f 2 6 req.path_length (omega arith) (w.path_length) refl,
    )

pub read_read :
    (server : Limits) (req : ReadRequest)
    → IsReadRequest server req
    → process_read_request_fixed server (cut 48 (body 48 (read_request_fields req)))
      ≡ some (parsed_read req, 0)
unfolding process_read_request_fixed
read_read server req w =
    let fs = read_request_fields req in
    let f = read_field-body 48 48 fs (omega arith) in
    ground (
      arith,
      w.no_info,
      w.allowed,
      f 2 0 49 (omega arith) (omega arith) refl,
      f 1 3 req.flags (omega arith) (w.flags) refl,
      f 4 4 req.length (omega arith) (w.length) refl,
      f 8 8 req.offset (omega arith) (w.offset) refl,
      get_bytes-body 48 48 fs (omega arith) 16 16 req.file_id (omega arith) refl (w.file_id),
      f 4 32 req.minimum_count (omega arith) (w.minimum_count) refl,
      f 4 36 req.channel (omega arith) (w.channel) refl,
      f 4 40 req.remaining_bytes (omega arith) (w.remaining_bytes) refl,
      f 2 46 req.read_channel_info_length (omega arith) (omega (arith, w.no_info)) refl,
    )

pub write_read :
    (req : WriteRequest)
    → IsWriteRequest req
    → process_write_request_fixed (cut 48 (body 48 (write_request_fields req)))
      ≡ some (parsed_write req, req.length)
unfolding process_write_request_fixed
write_read req w =
    let fs = write_request_fields req in
    let f = read_field-body 48 48 fs (omega arith) in
    ground (
      arith,
      w.no_info,
      w.length,
      f 2 0 49 (omega arith) (omega arith) refl,
      f 2 2 (header_size + 48) (omega arith) (omega arith) refl,
      f 4 4 req.length (omega arith) (omega (arith, w.length)) refl,
      f 8 8 req.offset (omega arith) (w.offset) refl,
      get_bytes-body 48 48 fs (omega arith) 16 16 req.file_id (omega arith) refl (w.file_id),
      f 4 32 req.channel (omega arith) (w.channel) refl,
      f 4 36 req.remaining_bytes (omega arith) (w.remaining_bytes) refl,
      read_field_clear 48 48 fs 2 40 refl,
      f 2 42 req.write_channel_info_length (omega arith) (omega (arith, w.no_info)) refl,
      f 4 44 req.flags (omega arith) (w.flags) refl,
    )

pub change_read :
    (junk : ℕ) (req : ChangeNotifyRequest)
    → IsChangeNotifyRequest req
    → process_change_notify_request_fixed junk (cut 32 (body 32 (change_notify_request_fields req)))
      ≡ some (parsed_change junk req)
unfolding process_change_notify_request_fixed is_sized
change_read junk req w =
    let fs = change_notify_request_fields req in
    let f = read_field-body 32 32 fs (omega arith) in
    ground (
      arith,
      get_uint-body 32 32 fs (omega arith) 2 0 32 (omega arith) (omega arith) refl,
      f 2 2 req.flags (omega arith) (w.flags) refl,
      get_bytes-body 32 32 fs (omega arith) 16 8 req.file_id (omega arith) refl (w.file_id),
      f 4 24 req.completion_filter (omega arith) (w.completion_filter) refl,
    )
