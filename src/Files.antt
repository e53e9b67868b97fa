-- ===== src/Files.antt =====
-- Sources/CSMB/lib/libsmb2.c: reading from a file handle, writing, seeking and flushing, by the
-- requests that are made and the callbacks of their replies. A null context or handle is left out,
-- and so is memory that runs out; a PDU that is made is one that is queued.
pub mod Open
pub mod Counts
pub mod Seek
pub mod ReadAll
mod Tests
use photo_transfer_nativesmb.Common.{
  ℕ, ◌+◌, ◌-◌, ◌*◌, ◌/◌, ◌%◌, ◌^◌, List, [], Bool, true, false, not, ◌&&◌, ltb, leb, ◌==◌,
  if◌then◌else◌, Option, none, some, replicate,
}
use photo_transfer_nativesmb.Smb2.{Pdu, Context}
use photo_transfer_nativesmb.Smb2.NtStatus
use photo_transfer_nativesmb.Smb2.Dialect
use photo_transfer_nativesmb.Pdu.{max_credits}
use photo_transfer_nativesmb.Errors.{Errno, nterror_to_errno}
use photo_transfer_nativesmb.Commands.Fields.{Limits}
use photo_transfer_nativesmb.Commands.Close.{CloseRequest, cmd_close_async}
use photo_transfer_nativesmb.Commands.Flush.{FlushRequest, cmd_flush_async}
use photo_transfer_nativesmb.Commands.Read.{ReadRequest, cmd_read_async}
use photo_transfer_nativesmb.Commands.Write.{WriteRequest, cmd_write_async}
use photo_transfer_nativesmb.Commands.Dispatch.{Reply, read_reply, write_reply, error_reply}

-- `struct smb2fh`, without its callback. `offset` and `end_of_file` are `int64_t`, in two's
-- complement.
pub record FileHandle : Type 0 where
  pub file_id : List ℕ
  pub offset : ℕ
  pub end_of_file : ℕ

-- `(count - 1) / 65536 + 1`, in `uint32_t`.
unfoldable pub needed_credits : ℕ → ℕ
needed_credits count = (count + 2 ^ 32 - 1) % 2 ^ 32 / 65536 + 1

-- How much of `count` a single request asks for. The text is the same for reads and for writes, but
-- for `max`.
unfoldable pub limit_count : ℕ → Context → ℕ → ℕ
unfolding needed_credits
limit_count max c count =
    let allowed = if ltb max count then max else count in
    let affordable =
      if ltb (max_credits - 16) (needed_credits allowed)
      then (max_credits - 16) * 65536
      else allowed in
    if ltb Dialect.v0202 c.dialect
    then (if ltb c.credits (needed_credits affordable)
        then c.credits * 65536 % 2 ^ 32
        else affordable)
    else (if ltb 65536 allowed then 65536 else allowed)

unfoldable pub pread_request : Limits → Context → FileHandle → Bool → ℕ → ℕ → ReadRequest
unfolding limit_count
pread_request limits c fh has_buf count offset = record {
  flags = 0;
  length = limit_count limits.max_read_size c count;
  offset = offset;
  has_buf = has_buf;
  file_id = fh.file_id;
  minimum_count = 0;
  channel = 0;
  remaining_bytes = 0;
  read_channel_info_offset = 0;
  read_channel_info_length = 0;
  read_channel_info = none;
}

unfoldable pub pread_async : Limits → Context → ℕ → ℕ → FileHandle → Bool → ℕ → ℕ → Option Pdu
unfolding pread_request cmd_read_async
pread_async limits c ref now fh has_buf count offset =
    cmd_read_async limits c ref now (pread_request limits c fh has_buf count offset)

unfoldable pub read_async : Limits → Context → ℕ → ℕ → FileHandle → Bool → ℕ → Option Pdu
unfolding pread_async
read_async limits c ref now fh has_buf count =
    pread_async limits c ref now fh has_buf count fh.offset

-- The status that a callback is called with: a count, 0 included, or an error.
pub data Called : Type 0 where
  done : ℕ → Called
  failed : Errno → Called

-- `rep->data_length`. At the end of a file the payload is an error reply, which has `byte_count` at
-- that place; no other payload comes with the two statuses.
unfoldable pub data_length : Reply → ℕ
data_length (read_reply rep) = rep.data_length
data_length (error_reply rep) = rep.byte_count
data_length _ = 0

-- `offset` is that of the request.
unfoldable pub read_cb : FileHandle → ℕ → ℕ → Reply → FileHandle × Called
unfolding data_length nterror_to_errno
read_cb fh offset status rep =
    if not (status == 0) && not (status == NtStatus.end_of_file)
    then (fh, failed (nterror_to_errno status))
    else (
      if status == NtStatus.success
          then record fh { offset = (offset + data_length rep) % 2 ^ 64 }
          else fh,
      done (data_length rep),
    )

unfoldable pub pwrite_request : ℕ → Context → FileHandle → List ℕ → ℕ → ℕ → WriteRequest
unfolding limit_count
pwrite_request max_write_size c fh buf count offset = record {
  data_offset = 0;
  length = limit_count max_write_size c count;
  offset = offset;
  buf = buf;
  file_id = fh.file_id;
  channel = 0;
  remaining_bytes = 0;
  write_channel_info_offset = 0;
  write_channel_info_length = 0;
  write_channel_info = none;
  flags = 0;
}

unfoldable pub pwrite_async :
    Limits → ℕ → Context → ℕ → ℕ → FileHandle → List ℕ → ℕ → ℕ → Option Pdu
unfolding pwrite_request cmd_write_async
pwrite_async limits max_write_size c ref now fh buf count offset =
    cmd_write_async limits c ref now (pwrite_request max_write_size c fh buf count offset)

unfoldable pub write_async : Limits → ℕ → Context → ℕ → ℕ → FileHandle → List ℕ → ℕ → Option Pdu
unfolding pwrite_async
write_async limits max_write_size c ref now fh buf count =
    pwrite_async limits max_write_size c ref now fh buf count fh.offset

-- `rep->count`. An error reply has one byte at that place and three of `padding`.
unfoldable pub written_count : ℕ → Reply → ℕ
written_count padding (write_reply rep) = rep.count
written_count padding (error_reply rep) = rep.error_context_count + 256 * padding
written_count padding _ = 0

unfoldable pub write_cb : ℕ → FileHandle → ℕ → ℕ → Reply → FileHandle × Called
unfolding written_count nterror_to_errno
write_cb padding fh offset status rep =
    if not (status == 0) && not (status == NtStatus.end_of_file)
    then (fh, failed (nterror_to_errno status))
    else (
      if status == NtStatus.success
          then record fh { offset = (offset + written_count padding rep) % 2 ^ 64 }
          else fh,
      done (written_count padding rep),
    )

unfoldable pub fsync_async : Context → ℕ → ℕ → FileHandle → Option Pdu
unfolding cmd_flush_async
fsync_async c ref now fh =
    let req : FlushRequest = record { file_id = fh.file_id } in cmd_flush_async c ref now req

-- Of a flush and of a close; a close then frees the handle.
unfoldable pub fsync_cb : ℕ → Called
unfolding nterror_to_errno
fsync_cb status =
    if not (status == NtStatus.success) then failed (nterror_to_errno status) else done 0

abbrev pub postquery_attrib : ℕ
postquery_attrib = 1

unfoldable pub close_async : Context → ℕ → ℕ → FileHandle → Option Pdu
unfolding cmd_close_async
close_async c ref now fh =
    let req : CloseRequest = record { flags = postquery_attrib; file_id = fh.file_id } in
    cmd_close_async c ref now req

-- `whence`, whose values are the platform's.
pub data Whence : Type 0 where
  seek_set seek_cur seek_end other_whence : Whence

abbrev pub is_below_zero : ℕ → Bool
is_below_zero offset = leb (2 ^ 63) offset

-- The results are the handle and the offset, or `none` for -EINVAL; a sum wraps at 64 bits. The
-- handle is at the end of the file already when an offset from there is refused.
unfoldable pub lseek : FileHandle → ℕ → Whence → FileHandle × Option ℕ
lseek fh offset seek_set =
    if is_below_zero offset then (fh, none) else (record fh { offset = offset }, some offset)
lseek fh offset seek_cur =
    let to = (fh.offset + offset) % 2 ^ 64 in
    if is_below_zero to then (fh, none) else (record fh { offset = to }, some to)
lseek fh offset seek_end =
    let to = (fh.end_of_file + offset) % 2 ^ 64 in
    if is_below_zero to
    then (record fh { offset = fh.end_of_file }, none)
    else (record fh { offset = to }, some to)
lseek fh offset other_whence = (fh, none)
