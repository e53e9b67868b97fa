-- ===== src/Commands/TreeConnect.antt =====
-- Sources/CSMB/lib/smb2-cmd-tree-connect.c, and its structures in
-- Sources/CSMB/include/smb2/smb2.h.
use photo_transfer_nativesmb.Common.{
  ℕ, ◌%◌, ◌^◌, ◌+◌, not, ◌==◌, bit_and, List, [], ◌∷◌, if◌then◌else◌, Option, none, some,
}
use photo_transfer_nativesmb.Wire.{Iovec}
use photo_transfer_nativesmb.Wire.Vectors.{IoVectors}
use photo_transfer_nativesmb.Smb2.{Pdu, Context, Header, header_size, tree_id, with_tree_id}
use photo_transfer_nativesmb.Smb2.Command
use photo_transfer_nativesmb.Commands.Fields.{
  Field, uint, add_body, add_copy, ◌then◌, command_pdu, with_body, is_sized, read_field,
}
use photo_transfer_nativesmb.Trees.{connect_tree_id, current_tree_id}
use photo_transfer_nativesmb.Pdu.{allocate_pdu}

-- `path_offset` is set by the parser alone, and `path` is `path_length` bytes of UTF-16.
pub record TreeConnectRequest : Type 0 where
  pub flags : ℕ
  pub path_offset : ℕ
  pub path_length : ℕ
  pub path : List ℕ

pub record TreeConnectReply : Type 0 where
  pub share_type : ℕ
  pub share_flags : ℕ
  pub capabilities : ℕ
  pub maximal_access : ℕ

abbrev pub tree_connect_request_fields : TreeConnectRequest → List Field
tree_connect_request_fields req =
    uint 2 0 9 ∷ uint 2 2 req.flags ∷ uint 2 4 (header_size + 8) ∷ uint 2 6 req.path_length ∷ []

unfoldable pub encode_tree_connect_request : TreeConnectRequest → IoVectors → Option IoVectors
unfolding add_body add_copy
encode_tree_connect_request req =
    add_body 8 (tree_connect_request_fields req) then add_copy req.path_length req.path

unfoldable pub cmd_tree_connect_async : Context → ℕ → ℕ → TreeConnectRequest → Option Pdu
unfolding command_pdu encode_tree_connect_request
cmd_tree_connect_async c ref now req =
    command_pdu c ref now Command.tree_connect (encode_tree_connect_request req)

abbrev pub tree_connect_reply_fields : TreeConnectReply → List Field
tree_connect_reply_fields rep =
    uint 2 0 16
    ∷ uint 1 2 rep.share_type
    ∷ uint 1 3 0
    ∷ uint 4 4 rep.share_flags
    ∷ uint 4 8 rep.capabilities
    ∷ uint 4 12 rep.maximal_access
    ∷ []

unfoldable pub encode_tree_connect_reply : TreeConnectReply → IoVectors → Option IoVectors
unfolding add_body
encode_tree_connect_reply rep = add_body 16 (tree_connect_reply_fields rep)

-- A server invents a tree id from a counter if it is given none, connects the tree, and gives it to
-- the PDU. The results are the PDU, the context and the counter.
unfoldable pub cmd_tree_connect_reply_async :
    Context → ℕ → ℕ → ℕ → TreeConnectReply → ℕ → Option Pdu × Context × ℕ
unfolding allocate_pdu connect_tree_id current_tree_id with_body encode_tree_connect_reply
cmd_tree_connect_reply_async c ref now s_tree_id rep id =
    let is_invented = id == 0 in
    let c' = (connect_tree_id c (if is_invented then s_tree_id else id)).1 in
    let next = if is_invented then (s_tree_id + 1) % 2 ^ 32 else s_tree_id in
    elim (allocate_pdu c ref now Command.tree_connect) [
      | none ↦ (none, c, s_tree_id)
      | some p ↦
          let p' = record p { header = with_tree_id p.header (current_tree_id c') } in
          (with_body (encode_tree_connect_reply rep) p', c', next)
    ]

abbrev pub encrypt_data : ℕ
encrypt_data = 0x00008000

-- What a client keeps of a share that asks for sealed messages.
abbrev pub with_seal : Context → TreeConnectReply → Context
with_seal c rep =
    if c.seal then c else record c { seal = not (bit_and rep.share_flags encrypt_data == 0) }

-- The tree id of the header is pushed, its status dropped. The results are the reply, unless the
-- size is wrong, and the context.
unfoldable pub process_tree_connect_fixed :
    Context → Header → Iovec → Option TreeConnectReply × Context
unfolding is_sized read_field connect_tree_id
process_tree_connect_fixed c hdr iov =
    let rep : TreeConnectReply = record {
      share_type = read_field 1 iov 2;
      share_flags = read_field 4 iov 4;
      capabilities = read_field 4 iov 8;
      maximal_access = read_field 4 iov 12;
    } in
    if is_sized 16 iov
    then (some rep, with_seal (connect_tree_id c (tree_id hdr)).1 rep)
    else (none, c)

-- The path follows; its length is returned.
unfoldable pub process_tree_connect_request_fixed : Iovec → Option (TreeConnectRequest × ℕ)
unfolding is_sized read_field
process_tree_connect_request_fixed iov =
    let req : TreeConnectRequest = record {
      flags = read_field 2 iov 2;
      path_offset = read_field 2 iov 4;
      path_length = read_field 2 iov 6;
      path = [];
    } in
    if is_sized 9 iov then some (req, req.path_length) else none

-- `path` is the vector's buffer.
unfoldable pub process_tree_connect_request_variable :
    Iovec → TreeConnectRequest → TreeConnectRequest
process_tree_connect_request_variable iov req = record req { path = iov.buf }
