-- ===== src/Socket/Drain.antt =====
-- With credits for all that waits, and a kernel that takes whole frames, smb2_write_to_socket sends
-- everything.
use photo_transfer_nativesmb.Common.{
  ℕ, ◌+◌, ◌-◌, ◌≤◌, ◌≡◌, refl, sym, ap, ◌∙◌, List, [], ◌∷◌, ◌++◌, All, length, replicate, arith,
  true, false,
}
use mathlib.Core.List.{append-nil}
use photo_transfer_nativesmb.Smb2.{Pdu}
use photo_transfer_nativesmb.Pdu.{credit_charge}
use photo_transfer_nativesmb.Socket.{
  frame_len, spl_size, write_loop, write_to_socket, at_most, Sender, Kernel, room, finished,
}
use photo_transfer_nativesmb.Socket.Frame.{
  frame, unwritten, gather-entries, pending-frame, length-drop, IsFramed, length-frame,
}
use photo_transfer_nativesmb.Socket.Flow.{stream, total_charge, IsSendable, total_charge-credits}
use photo_transfer_nativesmb.Socket.Step.{ended, after_write-ended}
use photo_transfer_nativesmb.Socket.Send.{write_to_socket-IsFlow}

-- A chain that is not sent yet, and whose frame the kernel takes at once.
unfoldable pub IsTaken : ℕ → List Pdu → Type 0
IsTaken n [] = ⊥
IsTaken n (p ∷ chain) =
    (p.out.num_done ≤ spl_size + frame_len p chain) × (spl_size + frame_len p chain ≤ n)

pending_whole :
    (n : ℕ) (p : Pdu) (chain : List Pdu)
    → IsFramed p chain
    → IsTaken n (p ∷ chain)
    → p.out.num_done + at_most n (length (unwritten p chain)) ≡ spl_size + frame_len p chain
unfolding IsTaken
pending_whole n p chain f (l, h) =
    rw (pending-frame p chain)
      (ground (arith, length-drop p.out.num_done (frame p chain), length-frame p chain f))

write_loop_first :
    (n : ℕ) (ks : List Kernel) (s : Sender) (p : Pdu) (chain : List Pdu) (rest : List (List Pdu))
    → s.queues.outqueue ≡ (p ∷ chain) ∷ rest
    → s.context.is_server ≡ false
    → IsFramed p chain
    → IsTaken n (p ∷ chain)
    → credit_charge s.context (p ∷ chain) ≤ s.context.credits
    → write_loop (room n ∷ ks) s
      ≡ write_loop ks (ended s p chain rest (at_most n (length (unwritten p chain))))
unfolding write_loop
write_loop_first n ks s p chain rest e c f t l =
    let sent =
      after_write-ended s p chain rest (at_most n (length (unwritten p chain))) c l
        (pending_whole n p chain f t) in
    ground (arith, e, gather-entries p chain f, sent)

write_loop_all :
    (n : ℕ) (q : List (List Pdu)) (s : Sender)
    → s.queues.outqueue ≡ q
    → s.context.is_server ≡ false
    → All IsSendable q
    → All (IsTaken n) q
    → total_charge s.context q ≤ s.context.credits
    → let (result, t) = write_loop (replicate (length q) (room n)) s in
      (result ≡ finished)
      × (t.queues.outqueue ≡ [])
      × (t.context.credits + total_charge s.context q ≡ s.context.credits)
unfolding write_loop total_charge IsSendable
write_loop_all n [] s e c a t l = (refl, e, omega arith)
write_loop_all n ([] ∷ q) s e c a (t, ts) l = absurd (unfold IsTaken in t)
write_loop_all n ((p ∷ chain) ∷ q) s e c (a, more) (t, ts) l =
    let next = ended s p chain q (at_most n (length (unwritten p chain))) in
    let step =
      write_loop_first n (replicate (length q) (room n)) s p chain q e c a t (omega (arith, l)) in
    let same : total_charge next.context q ≡ total_charge s.context q =
      unfold ended in total_charge-credits s.context next.context.credits q in
    let left : next.context.credits ≡ s.context.credits - credit_charge s.context (p ∷ chain) =
      unfold ended in refl in
    let (status, empty, paid) =
      write_loop_all n q next (unfold ended in refl) (unfold ended in c) more ts
        (omega (arith, same, left, l)) in
    rw step (status, empty, omega (arith, paid, same, left, l))

-- A client that is connected, has credits for all that its out queue charges, chains of at most 255
-- vectors there, which are backed, frames shorter than 2^32, no more counted as written of a frame
-- than it has, and a kernel that has room for a whole frame at each call, sends the out queue empty in as many calls of `writev` as
-- there are chains: all bytes of all frames, in order, for the credits that they charge.
pub write_to_socket_all :
    (n : ℕ) (s : Sender)
    → s.context.is_server ≡ false
    → All IsSendable s.queues.outqueue
    → All (IsTaken n) s.queues.outqueue
    → total_charge s.context s.queues.outqueue ≤ s.context.credits
    → let (result, t) = write_to_socket true (replicate (length s.queues.outqueue) (room n)) s in
      (result ≡ finished)
      × (t.queues.outqueue ≡ [])
      × (t.wire ≡ s.wire ++ stream s.queues.outqueue)
      × (t.context.credits + total_charge s.context s.queues.outqueue ≡ s.context.credits)
unfolding write_to_socket stream
write_to_socket_all n s c a t l =
    let ks = replicate (length s.queues.outqueue) (room n) in
    let (status, empty, paid) = write_loop_all n s.queues.outqueue s refl c a t l in
    let (_, moved, flow) = write_to_socket-IsFlow true ks s c a in
    let after = (write_loop ks s).1 in
    let all : after.wire ++ [] ≡ s.wire ++ stream s.queues.outqueue =
      ap (λ q. after.wire ++ stream q) (sym empty) ∙ flow.bytes in
    (status, empty, sym (append-nil after.wire) ∙ all, paid)
