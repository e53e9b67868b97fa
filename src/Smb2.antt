-- ===== src/Smb2.antt =====
-- Sources/CSMB/include/libsmb2-private.h: the header, the PDU and the part of the context on which
-- the modelled functions work. The children hold the constants of the headers in include/smb2.
pub mod Command
pub mod Flags
pub mod NtStatus
pub mod Dialect
pub mod Disposition
pub mod Access
pub mod CreateOption
use photo_transfer_nativesmb.Common.{ℕ, Bool, List, ◌/◌, ◌%◌, ◌^◌, ◌*◌, ◌+◌}
use photo_transfer_nativesmb.Wire.Vectors.{IoVectors}

abbrev pub header_size : ℕ
header_size = 64

-- `struct smb2_header`. `async_sync` is the union: eight bytes, read as the async id or as the
-- process id and the tree id, on a little-endian machine.
pub record Header : Type 0 where
  pub protocol_id : List ℕ
  pub struct_size : ℕ
  pub credit_charge : ℕ
  pub status : ℕ
  pub command : ℕ
  pub credit_request_response : ℕ
  pub flags : ℕ
  pub next_command : ℕ
  pub message_id : ℕ
  pub async_sync : ℕ
  pub session_id : ℕ
  pub signature : List ℕ

-- `hdr->sync.process_id`, `hdr->sync.tree_id` and an assignment to the latter.
abbrev pub process_id : Header → ℕ
process_id h = h.async_sync % 2 ^ 32

abbrev pub tree_id : Header → ℕ
tree_id h = h.async_sync / 2 ^ 32

abbrev pub with_tree_id : Header → ℕ → Header
with_tree_id h t = record h { async_sync = h.async_sync % 2 ^ 32 + t * 2 ^ 32 }

-- `struct smb2_pdu`. `ref` stands for its address, by which the lists compare. A chain that
-- `next_compound` makes is a list of these; `crypt` holds
-- the `crypt_len` bytes of a sealed chain; the callbacks and the payload are not modelled.
pub record Pdu : Type 0 where
  pub ref : ℕ
  pub header : Header
  pub prev_compound_mid : ℕ
  pub out : IoVectors
  pub seal : Bool
  pub crypt : List ℕ
  pub timeout : ℕ

-- `struct smb2_context`: the session's identifiers and the stack of tree ids.
pub record Context : Type 0 where
  pub is_server : Bool
  pub dialect : ℕ
  pub credits : ℕ
  pub seal : Bool
  pub sign : Bool
  pub timeout : ℕ
  pub message_id : ℕ
  pub session_id : ℕ
  pub async_id : ℕ
  pub tree_ids : List ℕ
  pub tree_id_top : ℕ
  pub tree_id_cur : ℕ
