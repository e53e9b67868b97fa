-- ===== src/Socket/Step.antt =====
-- One round of smb2_write_to_socket for a client.
use photo_transfer_nativesmb.Common.{
  ℕ, ◌+◌, ◌-◌, ◌≤◌, ◌≡◌, refl, sym, ap, ◌∙◌, List, [], ◌∷◌, ◌++◌, All, length, arith, false, Bool,
  ◌⊎◌, inl, inr, if◌then◌else◌,
}
use mathlib.Core.Path.{subst, ap₂}
use mathlib.Core.List.{append_assoc, append-nil}
use photo_transfer_nativesmb.Smb2.{Pdu, Context}
use photo_transfer_nativesmb.Pdu.{charge_for_one, credit_charge}
use photo_transfer_nativesmb.Pdu.Queues.{Queues, free_pdu, list_add_end}
use photo_transfer_nativesmb.Socket.{
  take, drop, bodies, frame_len, chain_len, vectors, spl_size, finish_chain, after_write, Sender,
}
use photo_transfer_nativesmb.Socket.Frame.{
  take-drop, drop-drop, drop-length, entries, unwritten, frame, pending-frame, IsFramed,
  length-frame,
}
use photo_transfer_nativesmb.Socket.Flow.{
  unsent, stream, flat, total_charge, IsSendable, IsFlow, credit_charge-credits,
}

finish_chain_client :
    (c : Context) (qs : Queues) (chain : List Pdu)
    → c.is_server ≡ false
    → credit_charge c chain ≤ c.credits
    → finish_chain c qs chain ≡ (
      record c { credits = c.credits - credit_charge c chain },
      record qs { waitqueue = qs.waitqueue ++ chain },
    )
unfolding finish_chain credit_charge list_add_end
finish_chain_client c qs [] h l =
    ap₂ (λ (k : ℕ) (w : List Pdu). (record c { credits = k }, record qs { waitqueue = w }))
      (omega arith) (sym (append-nil qs.waitqueue))
finish_chain_client c qs (p ∷ chain) h l =
    let paid = c.credits - charge_for_one c p.header in
    let same = credit_charge-credits c paid chain in
    let rest =
      finish_chain_client (record c { credits = paid })
        (record qs { waitqueue = qs.waitqueue ++ (p ∷ []) }) chain h (omega (arith, same)) in
    let left : paid - credit_charge (record c { credits = paid }) chain
        ≡ c.credits - (charge_for_one c p.header + credit_charge c chain) =
      omega (arith, same) in
    let queued : (qs.waitqueue ++ (p ∷ [])) ++ chain ≡ qs.waitqueue ++ (p ∷ chain) =
      append_assoc qs.waitqueue (p ∷ []) chain in
    let step =
      ap
        (λ (b : Bool).
          if b
          then finish_chain (record c { credits = 128 }) (free_pdu qs (p ∷ [])) chain
          else finish_chain (record c { credits = paid })
              (record qs { waitqueue = qs.waitqueue ++ (p ∷ []) }) chain)
        h in
    step
    ∙ rest
    ∙ ap₂ (λ (k : ℕ) (w : List Pdu). (record c { credits = k }, record qs { waitqueue = w })) left
        queued

-- A chain without progress has the same frame and charge as one with some.
abbrev pub progressed : Pdu → ℕ → Pdu
progressed p n = record p { out = record p.out { num_done = p.out.num_done + n } }

progressed-frame :
    (p : Pdu) (chain : List Pdu) (n : ℕ) → frame (progressed p n) chain ≡ frame p chain
unfolding frame entries bodies frame_len chain_len vectors
progressed-frame p chain n = refl

progressed-frame_len :
    (p : Pdu) (chain : List Pdu) (n : ℕ) → frame_len (progressed p n) chain ≡ frame_len p chain
unfolding frame_len chain_len
progressed-frame_len p chain n = refl

progressed-IsFramed :
    (p : Pdu) (chain : List Pdu) (n : ℕ) → IsFramed p chain → IsFramed (progressed p n) chain
unfolding chain_len bodies vectors
progressed-IsFramed p chain n f = record { few = f.few; backed = f.backed; small = f.small }

shuffle : (w a b r : List ℕ) → (w ++ a) ++ (b ++ r) ≡ w ++ ((a ++ b) ++ r)
shuffle w a b r = append_assoc w a (b ++ r) ∙ ap (λ (x : List ℕ). w ++ x) (sym (append_assoc a b r))

-- `writev` took `n` bytes of the first chain, which has more of them.
begun : Sender → Pdu → List Pdu → List (List Pdu) → ℕ → Sender
begun s p chain rest n = record s {
  queues = record s.queues { outqueue = (progressed p n ∷ chain) ∷ rest };
  wire = s.wire ++ take n (unwritten p chain);
}

-- It took the last of them.
unfoldable pub ended : Sender → Pdu → List Pdu → List (List Pdu) → ℕ → Sender
ended s p chain rest n = record {
  context = record s.context { credits = s.context.credits - credit_charge s.context (p ∷ chain) };
  queues = record { outqueue = rest; waitqueue = s.queues.waitqueue ++ (progressed p n ∷ chain) };
  wire = s.wire ++ take n (unwritten p chain);
}

module _ (s : Sender) (p : Pdu) (chain : List Pdu) (rest : List (List Pdu)) (n : ℕ)
    (e : s.queues.outqueue ≡ (p ∷ chain) ∷ rest) (f : IsFramed p chain)
    (l : credit_charge s.context (p ∷ chain) ≤ s.context.credits) where
  taken :
      take n (unwritten p chain) ++ drop (p.out.num_done + n) (frame p chain)
      ≡ drop p.out.num_done (frame p chain)
  taken =
      rw (pending-frame p chain, ← drop-drop p.out.num_done n (frame p chain))
        (take-drop n (drop p.out.num_done (frame p chain)))

  begun-IsFlow : IsFlow s (begun s p chain rest n) []
  unfolding begun stream flat total_charge unsent
  begun-IsFlow = record {
    same = ap unsent (sym e);
    bytes =
        shuffle s.wire (take n (unwritten p chain))
          (drop (p.out.num_done + n) (frame (progressed p n) chain)) (stream rest)
        ∙ rw (progressed-frame p chain n, taken) (ap (λ q. s.wire ++ stream q) (sym e));
    waiting = sym (append-nil s.queues.waitqueue);
    paid = omega arith;
    context = refl;
    left = omega (arith, ap length e);
  }

  ended-IsFlow :
      p.out.num_done + n ≡ spl_size + frame_len p chain
      → IsFlow s (ended s p chain rest n) ((progressed p n ∷ chain) ∷ [])
  unfolding ended stream flat total_charge credit_charge unsent
  ended-IsFlow d =
      let whole : drop (p.out.num_done + n) (frame p chain) ≡ [] =
        ap (λ k. drop k (frame p chain)) (d ∙ sym (length-frame p chain f))
        ∙ drop-length (frame p chain) in
      let all : take n (unwritten p chain) ≡ drop p.out.num_done (frame p chain) =
        sym (append-nil (take n (unwritten p chain))) ∙ rw whole at taken in
      record {
        same = ap unsent (sym e);
        bytes =
            append_assoc s.wire (take n (unwritten p chain)) (stream rest)
            ∙ rw all (ap (λ q. s.wire ++ stream q) (sym e));
        waiting =
            ap (λ (q : List Pdu). s.queues.waitqueue ++ q)
              (sym (append-nil (progressed p n ∷ chain)));
        paid = omega (arith, l);
        context = refl;
        left = omega (arith, ap length e);
      }

after_write_cases :
    (s : Sender) (p : Pdu) (chain : List Pdu) (rest : List (List Pdu)) (n : ℕ)
    → s.context.is_server ≡ false
    → credit_charge s.context (p ∷ chain) ≤ s.context.credits
    → (after_write s p chain rest (entries p chain) n ≡ ended s p chain rest n)
        × (p.out.num_done + n ≡ spl_size + frame_len p chain)
      ⊎ (after_write s p chain rest (entries p chain) n ≡ begun s p chain rest n)
unfolding after_write ended begun credit_charge
after_write_cases s p chain rest n c l = ground (
  arith,
  finish_chain_client s.context (record s.queues { outqueue = rest }) (progressed p n ∷ chain) c l,
)

pub after_write-ended :
    (s : Sender) (p : Pdu) (chain : List Pdu) (rest : List (List Pdu)) (n : ℕ)
    → s.context.is_server ≡ false
    → credit_charge s.context (p ∷ chain) ≤ s.context.credits
    → p.out.num_done + n ≡ spl_size + frame_len p chain
    → after_write s p chain rest (entries p chain) n ≡ ended s p chain rest n
unfolding after_write ended credit_charge
after_write-ended s p chain rest n c l d = ground (
  arith,
  finish_chain_client s.context (record s.queues { outqueue = rest }) (progressed p n ∷ chain) c l,
)

-- A client's state that comes from an earlier one, and can go on.
abbrev pub IsSent : Sender → Sender → Type 0
IsSent s t =
    (moved : List (List Pdu)) × IsFlow s t moved
    × (t.context.is_server ≡ false)
    × All IsSendable t.queues.outqueue

pub after_write-IsSent :
    (s : Sender) (p : Pdu) (chain : List Pdu) (rest : List (List Pdu)) (n : ℕ)
    → s.queues.outqueue ≡ (p ∷ chain) ∷ rest
    → s.context.is_server ≡ false
    → IsFramed p chain
    → All IsSendable rest
    → credit_charge s.context (p ∷ chain) ≤ s.context.credits
    → IsSent s (after_write s p chain rest (entries p chain) n)
unfolding ended begun IsSendable
after_write-IsSent s p chain rest n e c f r l = elim (after_write_cases s p chain rest n c l) [
  | inl (is_ended, d) ↦
      subst (IsSent s) (sym is_ended) (_, ended-IsFlow s p chain rest n e f l d, c, r)
  | inr is_begun ↦
      subst (IsSent s) (sym is_begun)
        (_, begun-IsFlow s p chain rest n e f l, c, (progressed-IsFramed p chain n f, r))
]
