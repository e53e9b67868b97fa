-- ===== src/Commands/TreeDisconnect.antt =====
-- Sources/CSMB/lib/smb2-cmd-tree-disconnect.c.
use photo_transfer_nativesmb.Common.{ℕ, [], ◌∷◌, Option}
use photo_transfer_nativesmb.Wire.{Iovec, Status, ok}
use photo_transfer_nativesmb.Wire.Vectors.{IoVectors}
use photo_transfer_nativesmb.Smb2.{Pdu, Context, Header, tree_id}
use photo_transfer_nativesmb.Smb2.Command
use photo_transfer_nativesmb.Commands.Fields.{uint, add_body, command_pdu}
use photo_transfer_nativesmb.Trees.{disconnect_tree_id}

unfoldable pub encode_tree_disconnect_request : IoVectors → Option IoVectors
unfolding add_body
encode_tree_disconnect_request = add_body 4 (uint 2 0 4 ∷ [])

unfoldable pub cmd_tree_disconnect_async : Context → ℕ → ℕ → Option Pdu
unfolding command_pdu encode_tree_disconnect_request
cmd_tree_disconnect_async c ref now =
    command_pdu c ref now Command.tree_disconnect encode_tree_disconnect_request

unfoldable pub encode_tree_disconnect_reply : IoVectors → Option IoVectors
unfolding add_body
encode_tree_disconnect_reply = add_body 4 (uint 2 0 4 ∷ [])

unfoldable pub cmd_tree_disconnect_reply_async : Context → ℕ → ℕ → Option Pdu
unfolding command_pdu encode_tree_disconnect_reply
cmd_tree_disconnect_reply_async c ref now =
    command_pdu c ref now Command.tree_disconnect encode_tree_disconnect_reply

-- `hdr` is `smb2->hdr`; the status of the removal is dropped.
unfoldable pub process_tree_disconnect_fixed : Context → Header → Status × Context
unfolding disconnect_tree_id
process_tree_disconnect_fixed c hdr = (ok, (disconnect_tree_id c (tree_id hdr)).1)

unfoldable pub process_tree_disconnect_request_fixed : Iovec → Status
process_tree_disconnect_request_fixed iov = ok
