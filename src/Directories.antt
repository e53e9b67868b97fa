-- ===== src/Directories.antt =====
-- Sources/CSMB/lib/libsmb2.c: the entries of a directory, as they are decoded, listed and read, with
-- smb2_decode_fileidfulldirectoryinformation of Sources/CSMB/lib/smb2-cmd-query-directory.c.
pub mod Position
pub mod Chains
mod Tests
use photo_transfer_nativesmb.Common.{
  ℕ, zero, suc, ◌+◌, ◌-◌, ◌*◌, ◌/◌, ◌%◌, ◌^◌, List, [], ◌∷◌, Bool, not, ltb, leb, ◌==◌, bit_and,
  if◌then◌else◌, Option, none, some,
}
use photo_transfer_nativesmb.Wire.{Iovec, get_le, get_uint}
use photo_transfer_nativesmb.Header.{or_old}
use photo_transfer_nativesmb.Socket.{drop}
use photo_transfer_nativesmb.Timestamps.{Timeval, win_to_timeval}
use photo_transfer_nativesmb.Unicode.{utf16_to_utf8}
use photo_transfer_nativesmb.Smb2.NtStatus
use photo_transfer_nativesmb.Errors.{Errno, nterror_to_errno}
use photo_transfer_nativesmb.Files.{Called, done, failed}

-- `struct smb2_fileidfulldirectoryinformation`; the file name's length is not stored.
pub record FullInformation : Type 0 where
  pub next_entry_offset : ℕ
  pub file_index : ℕ
  pub creation_time : Timeval
  pub last_access_time : Timeval
  pub last_write_time : Timeval
  pub change_time : Timeval
  pub end_of_file : ℕ
  pub allocation_size : ℕ
  pub file_attributes : ℕ
  pub ea_size : ℕ
  pub file_id : ℕ
  pub name : List ℕ

-- `n` units of a string of UTF-16.
unfoldable pub units_at : ℕ → List ℕ → ℕ → List ℕ
unfolding get_le
units_at zero xs off = []
units_at (suc n) xs off = get_le 2 xs off ∷ units_at n xs (off + 2)

-- A read of a field of which the test on the name has made sure that it is there.
abbrev pub field : ℕ → Iovec → ℕ → ℕ
field n vec off = or_old (get_uint n vec off) 0

-- `none` is -1, which leaves the structure as it was. A vector without the length of the name has not
-- the 80 bytes before it either, whatever the variable holds.
unfoldable pub decode_full_information : Iovec → Option FullInformation
unfolding get_uint units_at win_to_timeval utf16_to_utf8
decode_full_information vec =
    let name_len = field 4 vec 60 in
    let end = (80 + name_len) % 2 ^ 32 in
    if ltb end name_len
    then none
    else (if ltb vec.len end
        then none
        else some (record {
          next_entry_offset = field 4 vec 0;
          file_index = field 4 vec 4;
          creation_time = win_to_timeval (field 8 vec 8);
          last_access_time = win_to_timeval (field 8 vec 16);
          last_write_time = win_to_timeval (field 8 vec 24);
          change_time = win_to_timeval (field 8 vec 32);
          end_of_file = field 8 vec 40;
          allocation_size = field 8 vec 48;
          file_attributes = field 4 vec 56;
          ea_size = field 4 vec 64;
          file_id = field 8 vec 72;
          name = utf16_to_utf8 (units_at (name_len / 2) vec.buf 80);
        }))

-- A time of `struct smb2_stat_64`, in seconds and nanoseconds.
pub record Stamp : Type 0 where
  pub sec : ℕ
  pub nsec : ℕ

abbrev pub stamp_of : Timeval → Stamp
stamp_of tv = record { sec = tv.tv_sec; nsec = tv.tv_usec * 1000 % 2 ^ 64 }

-- `struct smb2dirent` with its `struct smb2_stat_64`; the number of links is always 0.
pub record Dirent : Type 0 where
  pub name : List ℕ
  pub file_type : ℕ
  pub ino : ℕ
  pub size : ℕ
  pub atime : Stamp
  pub mtime : Stamp
  pub ctime : Stamp
  pub btime : Stamp

-- The type of a file, a directory or a link.
unfoldable pub type_of : ℕ → ℕ
type_of attributes =
    if not (bit_and attributes 0x400 == 0)
    then 2
    else (if not (bit_and attributes 0x10 == 0) then 1 else 0)

unfoldable pub dirent_of : FullInformation → Dirent
unfolding type_of
dirent_of fs = record {
  name = fs.name;
  file_type = type_of fs.file_attributes;
  ino = fs.file_id;
  size = fs.end_of_file;
  atime = stamp_of fs.last_access_time;
  mtime = stamp_of fs.last_write_time;
  ctime = stamp_of fs.change_time;
  btime = stamp_of fs.creation_time;
}

-- The results of the loop: the entries, put before those there were, after 0 and after -1.
-- `unfinished` is a loop that has not ended.
pub data Decoded : Type 0 where
  listed : List Dirent → Decoded
  malformed : Decoded
  unfinished : Decoded

-- The vector behind an offset.
abbrev pub behind : Iovec → ℕ → Iovec
behind vec offset = record { buf = drop offset vec.buf; len = vec.len - offset }

-- The structure after an entry: where the decoder returns -1, nobody looks, and the structure keeps
-- what the entry before has left there, its name included.
abbrev pub keep : FullInformation → Option FullInformation → FullInformation
keep fs none = fs
keep fs (some fs') = fs'

unfoldable pub decode_at : Iovec → ℕ → FullInformation → FullInformation
decode_at vec offset fs = keep fs (decode_full_information (behind vec offset))

-- `fs` is the structure on the stack, of which the first round's contents are not set.
unfoldable pub decode_dirents : ℕ → Iovec → FullInformation → ℕ → List Dirent → Decoded
decode_dirents zero vec fs offset entries = unfinished
decode_dirents (suc fuel) vec fs offset entries =
    let fs' = decode_at vec offset fs in
    let entries' = dirent_of fs' ∷ entries in
    let rest = decode_dirents fuel vec fs' ((offset + fs'.next_entry_offset) % 2 ^ 32) entries' in
    if leb vec.len offset
    then malformed
    else (if fs'.next_entry_offset == 0 then listed entries' else rest)

-- `struct smb2dir`: `current_entry` is the list from that entry on.
pub record Directory : Type 0 where
  pub entries : List Dirent
  pub current : List Dirent
  pub index : ℕ

-- What a directory's callbacks do next: ask for more entries, close the handle, or report to the
-- application, and free the directory where there is none to give.
pub data Action : Type 0 where
  query_again : Action
  close_handle : Action
  give_up_memory : Action
  give_up : Errno → Action
  never : Action

unfoldable pub query_cb : ℕ → FullInformation → Directory → ℕ → Iovec → Directory × Action
unfolding decode_dirents nterror_to_errno
query_cb fuel fs dir status vec =
    if status == NtStatus.success
    then elim (decode_dirents fuel vec fs 0 dir.entries) [
      | listed entries ↦ (record dir { entries = entries }, query_again)
      | malformed ↦ (dir, give_up_memory)
      | unfinished ↦ (dir, never)
    ]
    else (if status == NtStatus.no_more_files
        then (dir, close_handle)
        else (dir, give_up (nterror_to_errno status)))

-- The directory is given to the application, or freed.
unfoldable pub od_close_cb : Directory → ℕ → Option Directory × Called
unfolding nterror_to_errno
od_close_cb dir status =
    if not (status == NtStatus.success)
    then (none, failed (nterror_to_errno status))
    else (some (record dir { current = dir.entries; index = 0 }), done 0)

-- `loc` is a `long`, in two's complement, that counts down past 0; `index` is an `int`.
unfoldable pub seek_loop : List Dirent → ℕ → ℕ → List Dirent × ℕ
seek_loop [] loc index = ([], index)
seek_loop (e ∷ entries) loc index =
    let rest = seek_loop entries ((loc + 2 ^ 64 - 1) % 2 ^ 64) ((index + 1) % 2 ^ 32) in
    if loc == 0 then (e ∷ entries, index) else rest

unfoldable pub seekdir : Directory → ℕ → Directory
unfolding seek_loop
seekdir dir loc =
    let (current, index) = seek_loop dir.entries loc 0 in
    record dir { current = current; index = index }

unfoldable pub telldir : Directory → ℕ
telldir dir = dir.index

unfoldable pub rewinddir : Directory → Directory
rewinddir dir = record dir { current = dir.entries; index = 0 }

-- The next entry, or `none` for NULL.
unfoldable pub readdir : Directory → Option Dirent × Directory
readdir dir = elim dir.current [
  | [] ↦ (none, dir)
  | e ∷ rest ↦ (some e, record dir { current = rest; index = (dir.index + 1) % 2 ^ 32 })
]
