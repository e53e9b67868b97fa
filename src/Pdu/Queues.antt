-- ===== src/Pdu/Queues.antt =====
-- The queues of a context: the macros of Sources/CSMB/include/slist.h on them, smb2_find_pdu and
-- smb2_free_pdu, and smb2_correlate_reply of Sources/CSMB/lib/pdu.c.
use photo_transfer_nativesmb.Common.{
  ℕ, Bool, ◌+◌, ◌-◌, ◌%◌, ◌^◌, List, [], ◌∷◌, ◌++◌, ◌&&◌, not, ltb, ◌==◌, if◌then◌else◌, Option,
  none, some, bit_and, bit_or,
}
use photo_transfer_nativesmb.Wire.{Status, ok, fail}
use photo_transfer_nativesmb.Smb2.{Header, Pdu, Context, tree_id, with_tree_id}
use photo_transfer_nativesmb.Smb2.Command
use photo_transfer_nativesmb.Smb2.Flags
use photo_transfer_nativesmb.Smb2.NtStatus

-- `smb2->outqueue`, each PDU with those that are chained to it, and `smb2->waitqueue`.
pub record Queues : Type 0 where
  pub outqueue : List (List Pdu)
  pub waitqueue : List Pdu

-- `SMB2_LIST_ADD_END`
unfoldable pub list_add_end : List Pdu → Pdu → List Pdu
list_add_end q p = q ++ (p ∷ [])

-- `SMB2_LIST_REMOVE`, of the PDU at the address `ref`.
unfoldable pub list_remove : List Pdu → ℕ → List Pdu
list_remove [] ref = []
list_remove (p ∷ q) ref = if p.ref == ref then q else p ∷ list_remove q ref

unfoldable pub chain_remove : List (List Pdu) → ℕ → List (List Pdu)
chain_remove [] ref = []
chain_remove ([] ∷ q) ref = [] ∷ chain_remove q ref
chain_remove ((p ∷ chain) ∷ q) ref = if p.ref == ref then q else (p ∷ chain) ∷ chain_remove q ref

-- The write through a pointer to a PDU of the queue.
unfoldable pub update : List Pdu → Pdu → List Pdu
update [] p' = []
update (p ∷ q) p' = if p.ref == p'.ref then p' ∷ q else p ∷ update q p'

-- NULL is `none`.
unfoldable pub find_pdu : List Pdu → ℕ → Option Pdu
find_pdu [] message_id = none
find_pdu (p ∷ q) message_id =
    if p.header.message_id == message_id then some p else find_pdu q message_id

-- The PDU and those that are chained to it leave the queues. Memory is not modelled.
unfoldable pub free_pdu : Queues → List Pdu → Queues
unfolding list_remove chain_remove
free_pdu qs [] = qs
free_pdu qs (p ∷ chain) =
    free_pdu
      (record {
        outqueue = chain_remove qs.outqueue p.ref;
        waitqueue = list_remove qs.waitqueue p.ref;
      })
      chain

abbrev pub is_async : Header → Bool
is_async h = not (bit_and h.flags Flags.async_command == 0)

-- An unsolicited break.
unfoldable pub break_header : Header → Header
break_header h = record (with_tree_id h 0) { message_id = 2 ^ 64 - 1; session_id = 0 }

-- The reply's header after the request's credits, message id and tree id were put into it.
unfoldable pub fit_reply : Header → Header → Header
fit_reply req h =
    let granted = req.credit_request_response in
    let h = record h {
      credit_request_response = if ltb 0xf000 granted then 0xffff else granted;
      credit_charge =
          if ltb h.credit_charge req.credit_charge then req.credit_charge else h.credit_charge;
      message_id = req.message_id;
    } in
    if h.command == Command.tree_connect then h else with_tree_id h (tree_id req)

-- An interim reply leaves its request in the queue, with the new async id; another takes the id of
-- its request and ends it. The results are the status, the context, the queues and the reply.
unfoldable pub correlate_reply : Context → Queues → Pdu → Status × Context × Queues × Pdu
correlate_reply c qs pdu = elim (find_pdu qs.waitqueue pdu.header.message_id) [
  | none ↦
      if pdu.header.command == Command.oplock_break
      then (ok, c, qs, record pdu { header = break_header pdu.header })
      else (fail, c, qs, pdu)
  | some req ↦
      let h = fit_reply req.header pdu.header in
      let id = (c.async_id + 1) % 2 ^ 64 in
      let async_flags = bit_or req.header.flags Flags.async_command in
      let ended = record qs { waitqueue = list_remove qs.waitqueue req.ref } in
      if is_async h && h.status == NtStatus.pending
      then (
        ok,
        record c { async_id = id },
        record qs {
          waitqueue =
              update qs.waitqueue (record req {
                header = record req.header { async_sync = id; flags = async_flags };
              });
        },
        record pdu { header = record h { async_sync = id } },
      )
      else (
        ok,
        c,
        free_pdu ended (req ∷ []),
        record pdu {
          header =
              if is_async req.header
              then record h {
                async_sync = req.header.async_sync;
                flags = bit_or h.flags Flags.async_command;
              }
              else h;
        },
      )
]
