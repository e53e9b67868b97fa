-- ===== src/Pdu/Reply.antt =====
-- A server's replies: smb2_correlate_reply gives a reply what its request asked for, and takes the
-- request off the wait queue with its last reply.
use photo_transfer_nativesmb.Common.{
  ℕ, ◌+◌, ◌*◌, ◌%◌, ◌^◌, ◌/◌, ◌≤◌, ◌<◌, ◌≡◌, ◌≢◌, refl, List, [], ◌∷◌, ◌++◌, map, All, arith, some,
  bit_and, bit_or, ap, sym, ◌∙◌, true, false, Bool, ◌&&◌, ◌⊎◌, ◌==◌,
}
use mathlib.Core.Path.{subst}
use photo_transfer_nativesmb.Common.Bits.{bit_or_step, bit_or-zero, bit_and_bit}
use photo_transfer_nativesmb.Wire.{ok}
use photo_transfer_nativesmb.Smb2.{Header, Pdu, Context, tree_id}
use photo_transfer_nativesmb.Smb2.Command
use photo_transfer_nativesmb.Smb2.Flags
use photo_transfer_nativesmb.Smb2.NtStatus
use photo_transfer_nativesmb.Pdu.Queues.{
  Queues, find_pdu, list_remove, chain_remove, update, free_pdu, is_async, fit_reply,
  correlate_reply,
}

-- The request `req` waits for the replies with the message id `mid`, behind those in `front`.
pub record Waits (q front back : List Pdu) (req : Pdu) (mid : ℕ) : Type 0 where
  pub queue : q ≡ front ++ (req ∷ back)
  pub id : req.header.message_id ≡ mid
  pub others : All (λ p. p.header.message_id ≢ mid) front
  pub before : All (λ p. p.ref ≢ req.ref) front
  pub behind : All (λ p. p.ref ≢ req.ref) back

find_pdu-append :
    (front back : List Pdu) (req : Pdu)
    → All (λ p. p.header.message_id ≢ req.header.message_id) front
    → find_pdu (front ++ (req ∷ back)) req.header.message_id ≡ some req
unfolding find_pdu
find_pdu-append [] back req h = ground arith
find_pdu-append (p ∷ front) back req (h, hs) = ground (arith, find_pdu-append front back req hs)

pub list_remove-append :
    (front back : List Pdu) (req : Pdu)
    → All (λ p. p.ref ≢ req.ref) front
    → list_remove (front ++ (req ∷ back)) req.ref ≡ front ++ back
unfolding list_remove
list_remove-append [] back req h = ground arith
list_remove-append (p ∷ front) back req (h, hs) =
    ground (arith, list_remove-append front back req hs)

update-append :
    (front back : List Pdu) (req req' : Pdu)
    → All (λ p. p.ref ≢ req.ref) front
    → req'.ref ≡ req.ref
    → update (front ++ (req ∷ back)) req' ≡ front ++ (req' ∷ back)
unfolding update
update-append [] back req req' h e = ground arith
update-append (p ∷ front) back req req' (h, hs) e =
    ground (arith, update-append front back req req' hs e)

bit_or_async : (a : ℕ) → bit_or a 2 ≡ a / 4 * 4 + 2 + a % 2
bit_or_async a = omega (arith, bit_or_step a 2, bit_or_step (a / 2) 1, bit_or-zero (a / 2 / 2))

async_set : (a : ℕ) → bit_and (bit_or a 2) 2 ≡ 2
async_set a = omega (arith, bit_and_bit 1 (bit_or a 2), bit_or_async a)

pub list_remove_absent : (q : List Pdu) (ref : ℕ) → All (λ p. p.ref ≢ ref) q → list_remove q ref ≡ q
unfolding list_remove
list_remove_absent [] ref h = refl
list_remove_absent (p ∷ q) ref (h, hs) = ground (arith, list_remove_absent q ref hs)

apart-append :
    (xs ys : List Pdu) (ref : ℕ)
    → All (λ p. p.ref ≢ ref) xs
    → All (λ p. p.ref ≢ ref) ys
    → All (λ p. p.ref ≢ ref) (xs ++ ys)
apart-append [] ys ref h g = g
apart-append (x ∷ xs) ys ref (h, hs) g = (h, apart-append xs ys ref hs g)

pub chain_remove_absent :
    (q : List (List Pdu)) (ref : ℕ)
    → All (λ chain. All (λ p. p.ref ≢ ref) chain) q
    → chain_remove q ref ≡ q
unfolding chain_remove
chain_remove_absent [] ref h = refl
chain_remove_absent ([] ∷ q) ref (h, hs) = ap (λ r. [] ∷ r) (chain_remove_absent q ref hs)
chain_remove_absent ((p ∷ chain) ∷ q) ref ((hp, h), hs) =
    ground (arith, chain_remove_absent q ref hs)

-- A reply that is not an interim one.
abbrev pub is_interim : Header → Bool
is_interim h = is_async h && h.status == NtStatus.pending

-- The reply that ends a request: `smb2_correlate_reply` takes the request off the wait queue and
-- leaves the rest of the queues as they were. The reply has the message id of the request, its tree
-- id unless it answers a tree connect, or its async id if an interim reply went before, grants the
-- credits that it asked for, or 0xffff where it asked for more than 0xf000, and charges at least as
-- much as the request and as the reply said.
pub correlate_reply_final :
    (c : Context) (qs : Queues) (front back : List Pdu) (req pdu : Pdu)
    → Waits qs.waitqueue front back req pdu.header.message_id
    → All (λ chain. All (λ p. p.ref ≢ req.ref) chain) qs.outqueue
    → is_interim pdu.header ≡ false
    → let (s, c', qs', r) = correlate_reply c qs pdu in
      (s ≡ ok)
      × (c' ≡ c)
      × (qs'.waitqueue ≡ front ++ back)
      × (qs'.outqueue ≡ qs.outqueue)
      × (r.header.message_id ≡ req.header.message_id)
      × ((is_async req.header ≡ true)
            × (is_async r.header ≡ true)
            × (r.header.async_sync ≡ req.header.async_sync)
          ⊎ (is_async req.header ≡ false)
            × ((pdu.header.command ≡ Command.tree_connect) × (tree_id r.header ≡ tree_id pdu.header)
                ⊎ (pdu.header.command ≢ Command.tree_connect)
                  × (tree_id r.header ≡ tree_id req.header)))
      × ((req.header.credit_request_response ≤ 0xf000)
            × (r.header.credit_request_response ≡ req.header.credit_request_response)
          ⊎ (0xf000 < req.header.credit_request_response)
            × (r.header.credit_request_response ≡ 0xffff))
      × (req.header.credit_charge ≤ r.header.credit_charge)
      × (pdu.header.credit_charge ≤ r.header.credit_charge)
unfolding correlate_reply fit_reply free_pdu
correlate_reply_final c qs front back req pdu w o i = ground (
  arith,
  w.queue,
  w.id,
  find_pdu-append front back req (rw (← w.id) at w.others),
  list_remove-append front back req w.before,
  list_remove_absent (front ++ back) req.ref (apart-append front back req.ref w.before w.behind),
  chain_remove_absent qs.outqueue req.ref o,
  async_set pdu.header.flags,
)

refs_same :
    (front back : List Pdu) (req req' : Pdu)
    → req'.ref ≡ req.ref
    → map (λ p. p.ref) (front ++ (req' ∷ back)) ≡ map (λ p. p.ref) (front ++ (req ∷ back))
refs_same [] back req req' e = ap (λ r. r ∷ map (λ p. p.ref) back) e
refs_same (p ∷ front) back req req' e = ap (λ rs. p.ref ∷ rs) (refs_same front back req req' e)

-- An interim reply takes a new async id, and leaves its request in its place, marked with it.
correlate_reply_interim :
    (c : Context) (qs : Queues) (front back : List Pdu) (req pdu : Pdu)
    → Waits qs.waitqueue front back req pdu.header.message_id
    → is_interim pdu.header ≡ true
    → let (s, c', qs', r) = correlate_reply c qs pdu in
      (req' : Pdu) × Waits qs'.waitqueue front back req' pdu.header.message_id
      × (s ≡ ok)
      × (c'.async_id ≡ (c.async_id + 1) % 2 ^ 64)
      × (qs'.outqueue ≡ qs.outqueue)
      × (r.header.message_id ≡ req.header.message_id)
      × (r.header.async_sync ≡ (c.async_id + 1) % 2 ^ 64)
      × (r.header.flags ≡ pdu.header.flags)
      × (req'.ref ≡ req.ref)
      × (req'.header.async_sync ≡ (c.async_id + 1) % 2 ^ 64)
      × (is_async req'.header ≡ true)
      × (req'.header.message_id ≡ req.header.message_id)
unfolding correlate_reply fit_reply
correlate_reply_interim c qs front back req pdu w i =
    let req' = record req {
      header = record req.header {
        async_sync = (c.async_id + 1) % 2 ^ 64;
        flags = bit_or req.header.flags Flags.async_command;
      };
    } in
    let found = find_pdu-append front back req (rw (← w.id) at w.others) in
    let changed = update-append front back req req' w.before refl in
    let marked = async_set req.header.flags in
    (
      req',
      record {
        queue = ground (arith, w.queue, w.id, found, changed);
        id = w.id;
        others = w.others;
        before = w.before;
        behind = w.behind;
      },
      ground (arith, w.queue, w.id, found),
      ground (arith, w.queue, w.id, found),
      ground (arith, w.queue, w.id, found),
      ground (arith, w.queue, w.id, found),
      ground (arith, w.queue, w.id, found),
      ground (arith, w.queue, w.id, found),
      refl,
      refl,
      ground (arith, marked),
      refl,
    )

-- An operation that is first answered by an interim reply and then by a last one: both replies have
-- the message id of the request and the same new async id, both are marked as asynchronous, the
-- first with the flags that it was made with, and the request waits until the last, which takes it
-- off the queue.
pub correlate_reply_async :
    (c : Context) (qs : Queues) (front back : List Pdu) (req first last : Pdu)
    → Waits qs.waitqueue front back req first.header.message_id
    → All (λ chain. All (λ p. p.ref ≢ req.ref) chain) qs.outqueue
    → is_interim first.header ≡ true
    → is_interim last.header ≡ false
    → last.header.message_id ≡ first.header.message_id
    → let (s1, c1, qs1, r1) = correlate_reply c qs first in
      let (s2, c2, qs2, r2) = correlate_reply c1 qs1 last in
      (s1 ≡ ok)
      × (s2 ≡ ok)
      × (r1.header.message_id ≡ req.header.message_id)
      × (r2.header.message_id ≡ req.header.message_id)
      × (r1.header.async_sync ≡ (c.async_id + 1) % 2 ^ 64)
      × (r2.header.async_sync ≡ (c.async_id + 1) % 2 ^ 64)
      × (r1.header.flags ≡ first.header.flags)
      × (is_async r1.header ≡ true)
      × (is_async r2.header ≡ true)
      × (map (λ p. p.ref) qs1.waitqueue ≡ map (λ p. p.ref) qs.waitqueue)
      × (qs2.waitqueue ≡ front ++ back)
      × (qs2.outqueue ≡ qs.outqueue)
correlate_reply_async c qs front back req first last w o i1 i2 e =
    let (s1, c1, qs1, r1) = correlate_reply c qs first in
    let (req', w', ok1, id1, out1, mid1, as1, flags1, ref', as', flag', mid') =
      correlate_reply_interim c qs front back req first w i1 in
    let (ok2, same, wait2, out2, mid2, tags, _, _, _) =
      correlate_reply_final c1 qs1 front back req' last
        (subst (λ m. Waits qs1.waitqueue front back req' m) (sym e) w') (rw (out1, ref') o) i2 in
    (
      ok1,
      ok2,
      mid1,
      mid2 ∙ mid',
      as1,
      ground (arith, tags, flag', as'),
      flags1,
      ground (arith, flags1, i1),
      ground (arith, tags, flag'),
      rw (w'.queue, w.queue) (refs_same front back req req' ref'),
      wait2,
      out2 ∙ out1,
    )
