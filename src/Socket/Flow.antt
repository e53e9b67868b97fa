-- ===== src/Socket/Flow.antt =====
-- What is sent and what is to be sent: the stream of bytes of an out queue, what sending a list of
-- chains costs, and how the states of a client that sends are related.
use photo_transfer_nativesmb.Common.{
  ℕ, ◌+◌, ◌≡◌, refl, sym, ap, ◌∙◌, List, [], ◌∷◌, ◌++◌, map, length, length-append, arith,
}
use mathlib.Core.Path.{ap₂}
use mathlib.Core.List.{append_assoc, append-nil}
use photo_transfer_nativesmb.Smb2.{Pdu, Context}
use photo_transfer_nativesmb.Pdu.{charge_for_one, credit_charge}
use photo_transfer_nativesmb.Socket.{drop, Sender}
use photo_transfer_nativesmb.Socket.Frame.{frame, IsFramed}

-- The bytes that are still to be sent, in order.
unfoldable pub stream : List (List Pdu) → List ℕ
stream [] = []
stream ([] ∷ rest) = stream rest
stream ((p ∷ chain) ∷ rest) = drop p.out.num_done (frame p chain) ++ stream rest

unfoldable pub flat : List (List Pdu) → List Pdu
flat [] = []
flat (c ∷ cs) = c ++ flat cs

unfoldable pub total_charge : Context → List (List Pdu) → ℕ
total_charge c [] = 0
total_charge c (d ∷ ds) = credit_charge c d + total_charge c ds

-- A member of the out queue is a chain whose frame fits its length field.
unfoldable pub IsSendable : List Pdu → Type 0
IsSendable [] = Unit {0}
IsSendable (p ∷ chain) = IsFramed p chain

-- Chains without the count of the bytes that were written.
abbrev reset : Pdu → Pdu
reset p = record p { out = record p.out { num_done = 0 } }

unfoldable pub unsent : List (List Pdu) → List (List Pdu)
unsent [] = []
unsent (chain ∷ chains) = map reset chain ∷ unsent chains

-- How the client's state comes from an earlier one: `moved` has the chains that were sent. Those and
-- the chains that are left are the chains that there were, the count of bytes apart.
pub record IsFlow (s s' : Sender) (moved : List (List Pdu)) : Type 0 where
  pub same : unsent (moved ++ s'.queues.outqueue) ≡ unsent s.queues.outqueue
  pub bytes : s'.wire ++ stream s'.queues.outqueue ≡ s.wire ++ stream s.queues.outqueue
  pub waiting : s'.queues.waitqueue ≡ s.queues.waitqueue ++ flat moved
  pub paid : s'.context.credits + total_charge s.context moved ≡ s.context.credits
  pub context : s'.context ≡ record s.context { credits = s'.context.credits }
  pub left : length s'.queues.outqueue + length moved ≡ length s.queues.outqueue

-- What a PDU costs depends on the dialect alone.
pub credit_charge-credits :
    (c : Context) (k : ℕ) (chain : List Pdu)
    → credit_charge (record c { credits = k }) chain ≡ credit_charge c chain
unfolding credit_charge charge_for_one
credit_charge-credits c k [] = refl
credit_charge-credits c k (p ∷ chain) =
    ap (λ n. charge_for_one c p.header + n) (credit_charge-credits c k chain)

pub total_charge-credits :
    (c : Context) (k : ℕ) (ds : List (List Pdu))
    → total_charge (record c { credits = k }) ds ≡ total_charge c ds
unfolding total_charge
total_charge-credits c k [] = refl
total_charge-credits c k (d ∷ ds) =
    ap₂ ◌+◌ (credit_charge-credits c k d) (total_charge-credits c k ds)

pub IsFlow-refl : (s : Sender) → IsFlow s s []
unfolding flat total_charge
IsFlow-refl s = record {
  same = refl;
  bytes = refl;
  waiting = sym (append-nil s.queues.waitqueue);
  paid = omega arith;
  context = refl;
  left = omega arith;
}

unsent-append : (xs ys : List (List Pdu)) → unsent (xs ++ ys) ≡ unsent xs ++ unsent ys
unfolding unsent
unsent-append [] ys = refl
unsent-append (x ∷ xs) ys = ap (λ (z : List (List Pdu)). map reset x ∷ z) (unsent-append xs ys)

flat-append : (xs ys : List (List Pdu)) → flat (xs ++ ys) ≡ flat xs ++ flat ys
unfolding flat
flat-append [] ys = refl
flat-append (x ∷ xs) ys =
    ap (λ (z : List Pdu). x ++ z) (flat-append xs ys) ∙ sym (append_assoc x (flat xs) (flat ys))

total_charge-append :
    (c : Context) (xs ys : List (List Pdu))
    → total_charge c (xs ++ ys) ≡ total_charge c xs + total_charge c ys
unfolding total_charge
total_charge-append c [] ys = omega arith
total_charge-append c (x ∷ xs) ys = omega (arith, total_charge-append c xs ys)

pub IsFlow-trans :
    (s t u : Sender) (xs ys : List (List Pdu))
    → IsFlow s t xs
    → IsFlow t u ys
    → IsFlow s u (xs ++ ys)
IsFlow-trans s t u xs ys f g =
    let same : total_charge t.context ys ≡ total_charge s.context ys =
      ap (λ c. total_charge c ys) f.context ∙ total_charge-credits s.context t.context.credits ys in
    let t_out = t.queues.outqueue in
    let u_out = u.queues.outqueue in
    record {
      same =
          ap unsent (append_assoc xs ys u_out)
          ∙ unsent-append xs (ys ++ u_out)
          ∙ ap (λ (z : List (List Pdu)). unsent xs ++ z) g.same
          ∙ sym (unsent-append xs t_out)
          ∙ f.same;
      bytes = g.bytes ∙ f.bytes;
      waiting =
          g.waiting
          ∙ ap (λ (q : List Pdu). q ++ flat ys) f.waiting
          ∙ append_assoc s.queues.waitqueue (flat xs) (flat ys)
          ∙ ap (λ (q : List Pdu). s.queues.waitqueue ++ q) (sym (flat-append xs ys));
      paid = omega (arith, f.paid, g.paid, same, total_charge-append s.context xs ys);
      context =
          g.context ∙ ap (λ (c : Context). record c { credits = u.context.credits }) f.context;
      left = omega (arith, f.left, g.left, length-append xs ys);
    }
