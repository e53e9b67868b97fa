-- ===== src/Pdu.antt =====
-- Sources/CSMB/lib/pdu.c: PDUs, chains of them, and the two queues of a context. A request is made by
-- smb2_allocate_pdu, chained by smb2_add_compound_pdu, looked up by smb2_find_pdu and given up by
-- smb2_timeout_pdus; smb2_correlate_reply fits a server's reply to its request.
pub mod Make
pub mod Chain
pub mod Queues
pub mod FixedSize
pub mod Reply
pub mod Timeout
pub mod Apart
pub mod Expiry
mod Tests
use photo_transfer_nativesmb.Common.{
  ℕ, zero, suc, ◌+◌, ◌-◌, ◌*◌, ◌%◌, ◌^◌, List, [], ◌∷◌, ◌++◌, Bool, ◌&&◌, ◌||◌, not, ltb, leb, ◌==◌,
  if◌then◌else◌, Option, none, some, bit_and, bit_or, replicate,
}
use photo_transfer_nativesmb.Wire.{Iovec, Status, ok, fail, set_uint32}
use photo_transfer_nativesmb.Wire.Vectors.{IoVectors, add_iovector, free_iovector, sum_len}
use photo_transfer_nativesmb.Smb2.{Header, Pdu, Context, header_size, tree_id, with_tree_id}
use photo_transfer_nativesmb.Smb2.Command
use photo_transfer_nativesmb.Smb2.Flags
use photo_transfer_nativesmb.Smb2.NtStatus
use photo_transfer_nativesmb.Smb2.Dialect
use photo_transfer_nativesmb.Trees.{current_tree_id, is_treeless}
use photo_transfer_nativesmb.Header.{smb2_sign}

abbrev pub max_credits : ℕ
max_credits = 1024

-- `hdr->credit_charge` of a new PDU.
unfoldable pub initial_charge : Context → ℕ → ℕ
initial_charge c command =
    if c.dialect == Dialect.v0202 then 0 else (if command == Command.negotiate then 0 else 1)

-- The header of a new PDU: `calloc` and the assignments. A context holds fewer than 2^31 credits.
unfoldable pub new_header : Context → ℕ → Header
unfolding initial_charge is_treeless current_tree_id
new_header c command = record {
  protocol_id = smb2_sign;
  struct_size = header_size;
  credit_charge = initial_charge c command;
  status = 0;
  command = command;
  credit_request_response = (max_credits + 2 ^ 32 - c.credits) % 2 ^ 16;
  flags = 0;
  next_command = 0;
  message_id = 0;
  async_sync = 0xFEFF + (if is_treeless command then 0 else current_tree_id c) * 2 ^ 32;
  session_id = if command == Command.negotiate then 0 else c.session_id;
  signature = replicate 16 0;
}

-- The vector for the header is `pdu->hdr`, zeroed by `calloc`. `ref` is the address that `calloc`
-- returned, `now` what `time` returns; `none` is NULL, for want of room in the vectors.
unfoldable pub allocate_pdu : Context → ℕ → ℕ → ℕ → Option Pdu
allocate_pdu c ref now command =
    elim (add_iovector (record { num_done = 0; total_size = 0; iov = [] })
      (record { buf = replicate 64 0; len = header_size })) [
        | none ↦ none
        | some out ↦ some (record {
          ref = ref;
          header = new_header c command;
          prev_compound_mid = 0;
          out = out;
          seal = c.seal && not (command == Command.negotiate || command == Command.session_setup);
          crypt = [];
          timeout = if c.timeout == 0 then 0 else now + c.timeout;
        })
      ]

-- `smb2_set_uint32(&pdu->out.iov[0], offset, value)` with its status dropped. The first vector is
-- the header's, and is there in every PDU that `smb2_allocate_pdu` made.
unfoldable pub patch_header : IoVectors → ℕ → ℕ → IoVectors
unfolding set_uint32
patch_header v offset value = elim v.iov [
  | [] ↦ v
  | iov0 ∷ rest ↦ record v { iov = (set_uint32 iov0 offset value).1 ∷ rest }
]

-- The last PDU of the chain is followed by the next one: its header has the length of its vectors.
unfoldable pub point_to_next : Pdu → Pdu
unfolding patch_header
point_to_next p =
    let offset = sum_len p.out.iov % 2 ^ 32 in
    record p {
      header = record p.header { next_command = offset };
      out = patch_header p.out 20 offset;
    }

unfoldable pub mark_related : Pdu → Pdu
unfolding patch_header
mark_related p =
    let flags = bit_or p.header.flags Flags.related_operations in
    record p { header = record p.header { flags = flags }; out = patch_header p.out 16 flags }

-- The chain from `pdu` on, with `next_pdu` behind its last member. An empty list is no chain.
unfoldable pub add_compound_pdu : List Pdu → Pdu → List Pdu
unfolding point_to_next mark_related
add_compound_pdu [] next_pdu = []
add_compound_pdu (p ∷ []) next_pdu = point_to_next p ∷ mark_related next_pdu ∷ []
add_compound_pdu (p ∷ q ∷ chain) next_pdu = p ∷ add_compound_pdu (q ∷ chain) next_pdu

-- Sources/CSMB/lib/socket.c: what sending takes off the credits.
unfoldable pub charge_for_one : Context → Header → ℕ
charge_for_one c h =
    if h.command == Command.negotiate
    then h.credit_charge
    else (if leb c.dialect Dialect.v0202 then h.credit_charge + 1 else h.credit_charge)

unfoldable pub credit_charge : Context → List Pdu → ℕ
credit_charge c [] = 0
credit_charge c (p ∷ chain) = charge_for_one c p.header + credit_charge c chain

-- A reply that has the body of an error, by `smb2->hdr.status`.
unfoldable pub is_error_response : ℕ → Bool
is_error_response status =
    if bit_and status NtStatus.severity_mask == NtStatus.severity_error
    then not (status == NtStatus.more_processing_required)
    else bit_and status NtStatus.severity_mask == NtStatus.severity_warning
      && status == NtStatus.stopped_on_symlink
