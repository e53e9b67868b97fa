-- ===== src/Pdu/Timeout.antt =====
-- smb2_timeout_pdus: the PDUs whose time is over leave the queues, and their callbacks are called.
use photo_transfer_nativesmb.Common.{
  ℕ, List, [], ◌∷◌, ◌++◌, Bool, not, ltb, ◌==◌, ◌&&◌, if◌then◌else◌,
}
use photo_transfer_nativesmb.Smb2.{Pdu}
use photo_transfer_nativesmb.Pdu.Queues.{Queues, list_remove, chain_remove, free_pdu}

-- `pdu->timeout && pdu->timeout < t`
unfoldable pub expired : ℕ → Pdu → Bool
expired t p = not (p.timeout == 0) && ltb p.timeout t

-- The loops over the queues, with the PDUs that they have still to visit. The results are the queues
-- and the addresses of the PDUs whose callbacks are called, in order; a callback is taken not to
-- change the queues itself.
unfoldable pub timeout_out : ℕ → List (List Pdu) → Queues → Queues × List ℕ
timeout_out t [] qs = (qs, [])
timeout_out t ([] ∷ todo) qs = timeout_out t todo qs
timeout_out t ((p ∷ chain) ∷ todo) qs =
    let removed = record qs { outqueue = chain_remove qs.outqueue p.ref } in
    let (qs', called) = timeout_out t todo (free_pdu removed (p ∷ chain)) in
    if expired t p then (qs', p.ref ∷ called) else timeout_out t todo qs

unfoldable pub timeout_wait : ℕ → List Pdu → Queues → Queues × List ℕ
timeout_wait t [] qs = (qs, [])
timeout_wait t (p ∷ todo) qs =
    let removed = record qs { waitqueue = list_remove qs.waitqueue p.ref } in
    let (qs', called) = timeout_wait t todo (free_pdu removed (p ∷ [])) in
    if expired t p then (qs', p.ref ∷ called) else timeout_wait t todo qs

-- `t` is what `time` returns.
unfoldable pub timeout_pdus : ℕ → Queues → Queues × List ℕ
timeout_pdus t qs =
    let (qs1, called1) = timeout_out t qs.outqueue qs in
    let (qs2, called2) = timeout_wait t qs1.waitqueue qs1 in (qs2, called1 ++ called2)
