-- ===== src/Socket/Send.antt =====
-- What smb2_write_to_socket does for a client: no byte is lost, repeated or reordered, and the
-- credits pay for the requests that were sent.
use photo_transfer_nativesmb.Common.{
  ℕ, ◌≤◌, ◌≡◌, refl, sym, List, [], ◌∷◌, ◌++◌, All, length, arith, true, false, Bool, ◌⊎◌, inl, inr,
  Bool_cases, ltb,
}
use mathlib.Core.Path.{subst}
use photo_transfer_nativesmb.Smb2.{Pdu}
use photo_transfer_nativesmb.Pdu.{credit_charge}
use photo_transfer_nativesmb.Socket.{
  after_write, write_loop, write_to_socket, at_most, Sender, Kernel, room, again, broken,
  WriteResult, overflow,
}
use photo_transfer_nativesmb.Socket.Frame.{entries, unwritten, gather-entries}
use photo_transfer_nativesmb.Socket.Flow.{IsSendable, IsFlow, IsFlow-refl, IsFlow-trans}
use photo_transfer_nativesmb.Socket.Step.{after_write-IsSent}

abbrev pub is_overflow : WriteResult → Bool
is_overflow overflow = true
is_overflow _ = false

-- A round of the loop writes, or is the last and changes nothing.
record IsRound (k : Kernel) (ks : List Kernel) (s : Sender) : Type 0 where
  first : Pdu
  chain : List Pdu
  rest : List (List Pdu)
  count : ℕ
  queue : s.queues.outqueue ≡ (first ∷ chain) ∷ rest
  affordable : credit_charge s.context (first ∷ chain) ≤ s.context.credits
  goes_on :
      write_loop (k ∷ ks) s
      ≡ write_loop ks (after_write s first chain rest (entries first chain) count)

-- The last round, which stays within the array.
record IsLast (k : Kernel) (ks : List Kernel) (s : Sender) : Type 0 where
  unchanged : (write_loop (k ∷ ks) s).1 ≡ s
  within : is_overflow (write_loop (k ∷ ks) s).0 ≡ false

write_loop_cases :
    (k : Kernel) (ks : List Kernel) (s : Sender)
    → All IsSendable s.queues.outqueue
    → IsRound k ks s ⊎ IsLast k ks s
unfolding write_loop IsSendable
write_loop_cases k ks s a = go s.queues.outqueue refl a k refl
  where
    go :
        (q : List (List Pdu))
        → s.queues.outqueue ≡ q
        → All IsSendable q
        → (k' : Kernel) → k ≡ k'
        → IsRound k ks s ⊎ IsLast k ks s
    go [] e f k' i = inr (record { unchanged = ground (arith, e); within = ground (arith, e) })
    go ([] ∷ rest) e f k' i =
        inr (record { unchanged = ground (arith, e); within = ground (arith, e) })
    go ((p ∷ chain) ∷ rest) e (f, fs) again i =
        let all = gather-entries p chain f in
        inr (record { unchanged = ground (arith, e, i, all); within = ground (arith, e, i, all) })
    go ((p ∷ chain) ∷ rest) e (f, fs) broken i =
        let all = gather-entries p chain f in
        inr (record { unchanged = ground (arith, e, i, all); within = ground (arith, e, i, all) })
    go ((p ∷ chain) ∷ rest) e (f, fs) (room n) i =
        let all = gather-entries p chain f in
        elim (Bool_cases (ltb s.context.credits (credit_charge s.context (p ∷ chain)))) [
          | inl poor ↦ inr (record {
            unchanged = ground (arith, e, i, poor);
            within = ground (arith, e, i, poor);
          })
          | inr rich ↦ inl (record {
            first = p;
            chain = chain;
            rest = rest;
            count = at_most n (length (unwritten p chain));
            queue = e;
            affordable = ground (arith, rich);
            goes_on = ground (arith, e, i, rich, all);
          })
        ]

write_loop-IsFlow :
    (ks : List Kernel) (s : Sender)
    → s.context.is_server ≡ false
    → All IsSendable s.queues.outqueue
    → let (result, t) = write_loop ks s in
      (is_overflow result ≡ false) × (moved : List (List Pdu)) × IsFlow s t moved
unfolding write_loop IsSendable
write_loop-IsFlow [] s c a = (refl, [], IsFlow-refl s)
write_loop-IsFlow (k ∷ ks) s c a = elim (write_loop_cases k ks s a) [
  | inr l ↦ (l.within, [], subst (λ t. IsFlow s t []) (sym l.unchanged) (IsFlow-refl s))
  | inl r ↦
      let (framed, others) = subst (All IsSendable) r.queue a in
      let next = after_write s r.first r.chain r.rest (entries r.first r.chain) r.count in
      let (m, f, c', a') =
        after_write-IsSent s r.first r.chain r.rest r.count r.queue c framed others r.affordable in
      let (within, m', f') = write_loop-IsFlow ks next c' a' in
      (
        subst (λ t. is_overflow t.0 ≡ false) (sym r.goes_on) within,
        m ++ m',
        subst (λ t. IsFlow s t.1 (m ++ m')) (sym r.goes_on) (IsFlow-trans s _ _ m m' f f'),
      )
]

-- A client that calls `smb2_write_to_socket`, whatever the kernel does, sends the bytes of the
-- frames in the out queue, in order, each once: those that the kernel took and those that are still
-- to be sent are together what was to be sent before. The chains that were sent are the first of the
-- out queue, the counts of their bytes apart: they left it, their PDUs stand at the end of the wait
-- queue, and what they charge was taken off the credits, which paid for it. The array of vectors is
-- not overrun. This needs chains of at most 255 vectors, which are backed, and frames shorter than
-- 2^32.
pub write_to_socket-IsFlow :
    (connected : Bool) (ks : List Kernel) (s : Sender)
    → s.context.is_server ≡ false
    → All IsSendable s.queues.outqueue
    → let (result, t) = write_to_socket connected ks s in
      (is_overflow result ≡ false) × (moved : List (List Pdu)) × IsFlow s t moved
unfolding write_to_socket
write_to_socket-IsFlow false ks s c a = (refl, [], IsFlow-refl s)
write_to_socket-IsFlow true ks s c a = write_loop-IsFlow ks s c a
