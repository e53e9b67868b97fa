-- ===== src/Pdu/Apart.antt =====
-- PDUs at different addresses: what leaves one queue alone, and what does not change the queues.
use photo_transfer_nativesmb.Common.{ℕ, ◌≡◌, ◌≢◌, refl, sym, ap, List, [], ◌∷◌, ◌++◌, All, arith}
use photo_transfer_nativesmb.Smb2.{Pdu}
use photo_transfer_nativesmb.Pdu.Queues.{Queues, chain_remove, free_pdu}
use photo_transfer_nativesmb.Pdu.Reply.{list_remove_absent, chain_remove_absent}

-- No PDU of one list has the address of one of the other.
abbrev pub IsApart : List Pdu → List Pdu → Type 0
IsApart c d = All (λ p. All (λ q. p.ref ≢ q.ref) d) c

unfoldable pub IsPairwise : List (List Pdu) → Type 0
IsPairwise [] = Unit {0}
IsPairwise (c ∷ cs) = All (λ d. IsApart c d × IsApart d c) cs × IsPairwise cs

unfoldable pub IsDistinct : List Pdu → Type 0
IsDistinct [] = Unit {0}
IsDistinct (p ∷ q) = All (λ r. p.ref ≢ r.ref) q × IsDistinct q

-- Every PDU is in one queue, once.
pub record IsSplit (qs : Queues) : Type 0 where
  pub out : IsPairwise qs.outqueue
  pub waiting : IsDistinct qs.waitqueue
  pub between : All (λ c. IsApart c qs.waitqueue × IsApart qs.waitqueue c) qs.outqueue

pub flip : {a b : ℕ} → a ≢ b → b ≢ a
flip f e = f (sym e)

pub flip_all : (r : ℕ) (d : List Pdu) → All (λ q. r ≢ q.ref) d → All (λ q. q.ref ≢ r) d
flip_all r [] h = tt
flip_all r (q ∷ d) (h, hs) = (flip h, flip_all r d hs)

pub flip_heads :
    (p : Pdu) (chain : List Pdu) (out : List (List Pdu))
    → All (λ d. IsApart (p ∷ chain) d) out
    → All (λ d. All (λ q. q.ref ≢ p.ref) d) out
flip_heads p chain [] h = tt
flip_heads p chain (d ∷ out) ((h, _), hs) = (flip_all p.ref d h, flip_heads p chain out hs)

pub IsApart-rest :
    (p : Pdu) (chain : List Pdu) (out : List (List Pdu))
    → All (λ d. IsApart (p ∷ chain) d) out
    → All (λ d. IsApart chain d) out
IsApart-rest p chain [] h = tt
IsApart-rest p chain (d ∷ out) ((_, h), hs) = (h, IsApart-rest p chain out hs)

-- `smb2_free_pdu` leaves queues alone that the PDUs are not in.
pub free_pdu_absent :
    (chain : List Pdu) (out : List (List Pdu)) (wait : List Pdu)
    → All (λ d. IsApart chain d) out
    → IsApart chain wait
    → free_pdu (record { outqueue = out; waitqueue = wait }) chain
      ≡ record { outqueue = out; waitqueue = wait }
unfolding free_pdu
free_pdu_absent [] out wait h g = refl
free_pdu_absent (p ∷ chain) out wait h (g, gs) =
    rw
      (
        chain_remove_absent out p.ref (flip_heads p chain out h),
        list_remove_absent wait p.ref (flip_all p.ref wait g),
      )
      (free_pdu_absent chain out wait (IsApart-rest p chain out h) gs)

pub chain_remove-append :
    (kept todo : List (List Pdu)) (p : Pdu) (chain : List Pdu)
    → All (λ d. IsApart (p ∷ chain) d) kept
    → chain_remove (kept ++ ((p ∷ chain) ∷ todo)) p.ref ≡ kept ++ todo
unfolding chain_remove
chain_remove-append [] todo p chain h = ground arith
chain_remove-append ([] ∷ kept) todo p chain (h, hs) =
    ap (λ q. [] ∷ q) (chain_remove-append kept todo p chain hs)
chain_remove-append ((k ∷ ks) ∷ kept) todo p chain (((e, _), _), hs) =
    ground (arith, chain_remove-append kept todo p chain hs, flip e)

pub all_append :
    {A : Type 0} (P : A → Type 0) (xs ys : List A) → All P xs → All P ys → All P (xs ++ ys)
all_append P [] ys h g = g
all_append P (x ∷ xs) ys (h, hs) g = (h, all_append P xs ys hs g)
