-- ===== src/Pdu/Expiry.antt =====
-- smb2_timeout_pdus compared with what it is for: the queues keep the PDUs that are not over time.
use photo_transfer_nativesmb.Common.{
  ℕ, ◌≡◌, ◌≢◌, refl, List, [], ◌∷◌, ◌++◌, All, arith, if◌then◌else◌, inl, inr, Bool_cases,
}
use mathlib.Core.List.{append_assoc}
use photo_transfer_nativesmb.Smb2.{Pdu}
use photo_transfer_nativesmb.Pdu.Queues.{Queues}
use photo_transfer_nativesmb.Pdu.Reply.{list_remove-append}
use photo_transfer_nativesmb.Pdu.Timeout.{expired, timeout_out, timeout_wait, timeout_pdus}
use photo_transfer_nativesmb.Pdu.Apart.{
  IsApart, IsPairwise, IsDistinct, IsSplit, flip, flip_all, IsApart-rest, free_pdu_absent,
  chain_remove-append, all_append,
}

-- What is meant: the PDUs that are not over time, and the addresses of those that are.
unfoldable pub live : ℕ → List Pdu → List Pdu
live t [] = []
live t (p ∷ q) = if expired t p then live t q else p ∷ live t q

unfoldable pub over : ℕ → List Pdu → List ℕ
over t [] = []
over t (p ∷ q) = if expired t p then p.ref ∷ over t q else over t q

unfoldable pub live_chains : ℕ → List (List Pdu) → List (List Pdu)
live_chains t [] = []
live_chains t ([] ∷ q) = [] ∷ live_chains t q
live_chains t ((p ∷ chain) ∷ q) =
    if expired t p then live_chains t q else (p ∷ chain) ∷ live_chains t q

unfoldable pub over_chains : ℕ → List (List Pdu) → List ℕ
over_chains t [] = []
over_chains t ([] ∷ q) = over_chains t q
over_chains t ((p ∷ chain) ∷ q) = if expired t p then p.ref ∷ over_chains t q else over_chains t q

extend :
    (kept todo : List (List Pdu)) (c : List Pdu)
    → All (λ e. All (λ k. IsApart e k) kept) todo
    → All (λ d. IsApart c d × IsApart d c) todo
    → All (λ e. All (λ k. IsApart e k) (kept ++ (c ∷ []))) todo
extend kept [] c k d = tt
extend kept (e ∷ todo) c (k, ks) ((_, d), ds) =
    (all_append (λ k. IsApart e k) kept (c ∷ []) k (d, tt), extend kept todo c ks ds)

IsApart-todo :
    (c : List Pdu) (todo : List (List Pdu))
    → All (λ d. IsApart c d × IsApart d c) todo
    → All (λ d. IsApart c d) todo
IsApart-todo c [] h = tt
IsApart-todo c (d ∷ todo) ((h, _), hs) = (h, IsApart-todo c todo hs)

-- The loop over the out queue, with the chains that it has kept.
timeout_out-live :
    (t : ℕ) (kept todo : List (List Pdu)) (wait : List Pdu)
    → All (λ c. All (λ k. IsApart c k) kept) todo
    → IsPairwise todo
    → All (λ c. IsApart c wait) todo
    → timeout_out t todo (record { outqueue = kept ++ todo; waitqueue = wait })
      ≡ (record { outqueue = kept ++ live_chains t todo; waitqueue = wait }, over_chains t todo)
unfolding timeout_out live_chains over_chains IsPairwise
timeout_out-live t kept [] wait k d b = refl
timeout_out-live t kept ([] ∷ todo) wait (k, ks) (d, ds) (b, bs) =
    rw (append_assoc kept ([] ∷ []) todo, append_assoc kept ([] ∷ []) (live_chains t todo)) at
      (timeout_out-live t (kept ++ ([] ∷ [])) todo wait (extend kept todo [] ks d) ds bs)
timeout_out-live t kept ((p ∷ chain) ∷ todo) wait (k, ks) (d, ds) (b, bs) =
    let c = p ∷ chain in
    let keep : timeout_out t todo (record { outqueue = kept ++ (c ∷ todo); waitqueue = wait }) ≡ (
      record { outqueue = kept ++ (c ∷ live_chains t todo); waitqueue = wait },
      over_chains t todo,
    ) =
      rw (append_assoc kept (c ∷ []) todo, append_assoc kept (c ∷ []) (live_chains t todo)) at
        (timeout_out-live t (kept ++ (c ∷ [])) todo wait (extend kept todo c ks d) ds bs) in
    let drop = timeout_out-live t kept todo wait ks ds bs in
    let gone = chain_remove-append kept todo p chain k in
    let freed =
      free_pdu_absent c (kept ++ todo) wait
        (all_append (λ e. IsApart c e) kept todo k (IsApart-todo c todo d)) b in
    ground (arith, keep, drop, gone, freed)

IsApart-one :
    (p : Pdu) (todo : List Pdu) (out : List (List Pdu))
    → All (λ d. IsApart (p ∷ todo) d) out
    → All (λ d. IsApart (p ∷ []) d) out
IsApart-one p todo [] h = tt
IsApart-one p todo (d ∷ out) ((h, _), hs) = ((h, tt), IsApart-one p todo out hs)

extend_one :
    (kept todo : List Pdu) (p : Pdu)
    → All (λ r. All (λ k. r.ref ≢ k.ref) kept) todo
    → All (λ r. p.ref ≢ r.ref) todo
    → All (λ r. All (λ k. r.ref ≢ k.ref) (kept ++ (p ∷ []))) todo
extend_one kept [] p k d = tt
extend_one kept (r ∷ todo) p (k, ks) (d, ds) =
    (all_append (λ q. r.ref ≢ q.ref) kept (p ∷ []) k (flip d, tt), extend_one kept todo p ks ds)

-- The loop over the wait queue, with the PDUs that it has kept.
timeout_wait-live :
    (t : ℕ) (kept todo : List Pdu) (out : List (List Pdu))
    → All (λ r. All (λ k. r.ref ≢ k.ref) kept) todo
    → IsDistinct todo
    → All (λ d. IsApart todo d) out
    → timeout_wait t todo (record { outqueue = out; waitqueue = kept ++ todo })
      ≡ (record { outqueue = out; waitqueue = kept ++ live t todo }, over t todo)
unfolding timeout_wait live over IsDistinct
timeout_wait-live t kept [] out k d b = refl
timeout_wait-live t kept (p ∷ todo) out (k, ks) (d, ds) b =
    let rest = IsApart-rest p todo out b in
    let keep : timeout_wait t todo (record { outqueue = out; waitqueue = kept ++ (p ∷ todo) })
        ≡ (record { outqueue = out; waitqueue = kept ++ (p ∷ live t todo) }, over t todo) =
      rw (append_assoc kept (p ∷ []) todo, append_assoc kept (p ∷ []) (live t todo)) at
        (timeout_wait-live t (kept ++ (p ∷ [])) todo out (extend_one kept todo p ks d) ds rest) in
    let drop = timeout_wait-live t kept todo out ks ds rest in
    let gone = list_remove-append kept todo p (flip_all p.ref kept k) in
    let freed =
      free_pdu_absent (p ∷ []) out (kept ++ todo) (IsApart-one p todo out b)
        (all_append (λ q. p.ref ≢ q.ref) kept todo k d, tt) in
    ground (arith, keep, drop, gone, freed)

all_live :
    (P : List Pdu → Type 0) (t : ℕ) (out : List (List Pdu)) → All P out → All P (live_chains t out)
unfolding live_chains
all_live P t [] h = tt
all_live P t ([] ∷ out) (h, hs) = (h, all_live P t out hs)
all_live P t ((p ∷ chain) ∷ out) (h, hs) = elim (Bool_cases (expired t p)) [
  | inl e ↦ rw e (all_live P t out hs)
  | inr e ↦ rw e (h, all_live P t out hs)
]

firsts :
    (out : List (List Pdu)) (w : List Pdu)
    → All (λ c. IsApart c w × IsApart w c) out
    → All (λ c. IsApart c w) out
firsts [] w h = tt
firsts (c ∷ out) w ((h, _), hs) = (h, firsts out w hs)

seconds :
    (out : List (List Pdu)) (w : List Pdu)
    → All (λ c. IsApart c w × IsApart w c) out
    → All (λ c. IsApart w c) out
seconds [] w h = tt
seconds (c ∷ out) w ((_, h), hs) = (h, seconds out w hs)

none_kept : {A : Type 0} (P : A → A → Type 0) (todo : List A) → All (λ c. All (λ k. P c k) []) todo
none_kept P [] = tt
none_kept P (c ∷ todo) = (tt, none_kept P todo)

-- Where every PDU is in one queue, once, and the callbacks leave the queues alone,
-- `smb2_timeout_pdus` removes exactly the chains whose first PDU is over time from the out queue and
-- the PDUs that are over time from the wait queue, keeps the order of the others, and calls the
-- callback of each of these once, in the order of the queues: for a chain, that of its first PDU
-- alone.
pub timeout_pdus-live :
    (t : ℕ) (qs : Queues)
    → IsSplit qs
    → timeout_pdus t qs ≡ (
      record { outqueue = live_chains t qs.outqueue; waitqueue = live t qs.waitqueue },
      over_chains t qs.outqueue ++ over t qs.waitqueue,
    )
unfolding timeout_pdus
timeout_pdus-live t qs s =
    let first =
      timeout_out-live t [] qs.outqueue qs.waitqueue (none_kept IsApart qs.outqueue) s.out
        (firsts qs.outqueue qs.waitqueue s.between) in
    let second =
      timeout_wait-live t [] qs.waitqueue (live_chains t qs.outqueue)
        (none_kept (λ r k. r.ref ≢ k.ref) qs.waitqueue) s.waiting
        (all_live (λ d. IsApart qs.waitqueue d) t qs.outqueue
          (seconds qs.outqueue qs.waitqueue s.between)) in
    rw (first, second) refl
