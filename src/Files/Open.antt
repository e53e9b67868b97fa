-- ===== src/Files/Open.antt =====
-- Sources/CSMB/lib/libsmb2.c: the request that opens a file, and open_cb.
use photo_transfer_nativesmb.Common.{
  ℕ, ◌+◌, List, [], ◌∷◌, Bool, if◌then◌else◌, not, ◌==◌, Option, none, some, bit_or, bit_and, ◌≡◌,
  true, false,
}
use photo_transfer_nativesmb.Smb2.NtStatus
use photo_transfer_nativesmb.Smb2.Disposition
use photo_transfer_nativesmb.Smb2.Access
use photo_transfer_nativesmb.Smb2.CreateOption
use photo_transfer_nativesmb.Errors.{nterror_to_errno}
use photo_transfer_nativesmb.Commands.Fields.{Field, uint, bytes, body}
use photo_transfer_nativesmb.Files.{FileHandle, Called, done, failed}

-- `flags`, by the bits that are tested. Their values are the platform's.
pub data AccessMode : Type 0 where
  rdonly wronly rdwr no_mode : AccessMode

pub record OpenFlags : Type 0 where
  pub access : AccessMode
  pub creat : Bool
  pub excl : Bool
  pub trunc : Bool
  pub directory : Bool
  pub sync : Bool

-- `struct smb2_create_request`, as far as it is set here. A null `create_context` is `none`.
pub record CreateRequest : Type 0 where
  pub requested_oplock_level : ℕ
  pub impersonation_level : ℕ
  pub desired_access : ℕ
  pub file_attributes : ℕ
  pub share_access : ℕ
  pub create_disposition : ℕ
  pub create_options : ℕ
  pub name : List ℕ
  pub create_context_length : ℕ
  pub create_context : Option (List ℕ)

unfoldable pub create_disposition : OpenFlags → ℕ
create_disposition flags =
    if flags.creat
    then (if flags.excl
        then Disposition.create
        else (if flags.trunc then Disposition.overwrite_if else Disposition.open_if))
    else (if flags.trunc then Disposition.overwrite else Disposition.open_existing)

abbrev pub write_access : ℕ
write_access = bit_or (bit_or Access.write_data Access.write_ea) Access.write_attributes

abbrev pub read_access : ℕ
read_access = bit_or (bit_or Access.read_data Access.read_ea) Access.read_attributes

-- The `switch` falls through from reading and writing to reading alone.
unfoldable pub mode_access : AccessMode → ℕ
mode_access rdonly = read_access
mode_access wronly = write_access
mode_access rdwr = bit_or write_access read_access
mode_access no_mode = 0

unfoldable pub desired_access : OpenFlags → ℕ
unfolding mode_access
desired_access flags =
    if flags.sync
    then bit_or (mode_access flags.access) Access.synchronize
    else mode_access flags.access

unfoldable pub create_options : OpenFlags → ℕ
create_options flags =
    let kind =
      if flags.directory then CreateOption.directory_file else CreateOption.non_directory_file in
    bit_or (if flags.sync then bit_or kind CreateOption.no_intermediate_buffering else kind)
      CreateOption.open_reparse_point

abbrev pub lease_size : ℕ
lease_size = 32

-- The tag is "RqLs", big-endian, as a little-endian machine writes it.
abbrev pub lease_fields : List ℕ → ℕ → List Field
lease_fields lease_key lease_state =
    uint 4 0 0
    ∷ uint 2 4 16
    ∷ uint 2 6 4
    ∷ uint 2 8 0
    ∷ uint 2 10 24
    ∷ uint 2 12 lease_size
    ∷ uint 4 16 0x734c7152
    ∷ bytes 16 24 lease_key
    ∷ uint 4 40 lease_state
    ∷ []

abbrev pub impersonation : ℕ
impersonation = 2

abbrev pub share_read : ℕ
share_read = 1

-- A null `lease_key` is `none`.
unfoldable pub open_request : List ℕ → OpenFlags → ℕ → ℕ → Option (List ℕ) → CreateRequest
unfolding create_disposition desired_access create_options body
open_request path flags oplock_level lease_state lease_key =
    let req : CreateRequest = record {
      requested_oplock_level = oplock_level;
      impersonation_level = impersonation;
      desired_access = desired_access flags;
      file_attributes = 0;
      share_access = share_read;
      create_disposition = create_disposition flags;
      create_options = create_options flags;
      name = path;
      create_context_length = 0;
      create_context = none;
    } in
    elim lease_key [
      | none ↦ req
      | some key ↦ if lease_state == 0 then req else record req {
        create_context_length = lease_size + 24;
        create_context = some (body (lease_size + 24) (lease_fields key lease_state)).buf;
      }
    ]

-- The file id and the size come from the reply; the offset is the 0 of a new handle. Where opening
-- fails the handle is freed.
unfoldable pub open_cb : ℕ → List ℕ → ℕ → Option FileHandle × Called
unfolding nterror_to_errno
open_cb status file_id end_of_file =
    if not (status == NtStatus.success)
    then (none, failed (nterror_to_errno status))
    else (some (record { file_id = file_id; offset = 0; end_of_file = end_of_file }), done 0)

-- What a mode asks for.
abbrev pub writes : AccessMode → Bool
writes wronly = true
writes rdwr = true
writes _ = false

abbrev pub reads : AccessMode → Bool
reads rdonly = true
reads rdwr = true
reads _ = false

-- The rights of smb2.h that let a handle change something: data (0x2, 0x4), extended attributes
-- (0x10), children (0x40), attributes (0x100), deletion (0x10000), the ACL (0x40000), the owner
-- (0x80000), the system's ACL (0x01000000), all that is allowed (0x02000000) and the generic rights
-- to all (0x10000000) and to write (0x40000000).
abbrev pub changing : ℕ
changing = 0x530d0156

-- Those that let it look: data (0x1), extended attributes (0x8), execution (0x20), attributes (0x80)
-- and the generic rights to execute (0x20000000) and to read (0x80000000).
abbrev pub looking : ℕ
looking = 0xa00000a9

-- The rights in a request, bit by bit: data, extended attributes and attributes are 0x2, 0x10 and
-- 0x100 to write, and 0x1, 0x8 and 0x80 to read. Others may read (0x1), and a link is opened as
-- itself (0x00200000).
pub record IsGuarded (flags : OpenFlags) (req : CreateRequest) : Type 0 where
  pub share : req.share_access ≡ 0x1
  pub write : bit_and req.desired_access changing ≡ (if writes flags.access then 0x112 else 0)
  pub read : bit_and req.desired_access looking ≡ (if reads flags.access then 0x89 else 0)
  pub link : bit_and req.create_options 0x00200000 ≡ 0x00200000
