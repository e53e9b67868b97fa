-- ===== src/Socket.antt =====
-- Sources/CSMB/lib/socket.c: smb2_write_to_socket, which sends the chains of the out queue as far as
-- the credits and the kernel let it.
pub mod Frame
pub mod Flow
pub mod Step
pub mod Send
pub mod Drain
mod Tests
use photo_transfer_nativesmb.Common.{
  ℕ, zero, suc, ◌+◌, ◌-◌, ◌/◌, ◌%◌, ◌^◌, List, [], ◌∷◌, ◌++◌, map, Bool, true, false, ltb, leb,
  ◌==◌, if◌then◌else◌, length, Option, none, some,
}
use photo_transfer_nativesmb.Wire.{Iovec}
use photo_transfer_nativesmb.Wire.Vectors.{sum_len, max_vectors}
use photo_transfer_nativesmb.Smb2.{Pdu, Context}
use photo_transfer_nativesmb.Pdu.{charge_for_one, credit_charge}
use photo_transfer_nativesmb.Pdu.Queues.{Queues, free_pdu, list_add_end}

-- What `writev` meets: room for some bytes, of which it takes no more than it is given, a full
-- buffer (EAGAIN), or another error.
pub data Kernel : Type 0 where
  room : ℕ → Kernel
  again broken : Kernel

-- The state of sending: `wire` has the bytes that the kernel took.
pub record Sender : Type 0 where
  pub context : Context
  pub queues : Queues
  pub wire : List ℕ

unfoldable pub take : ℕ → List ℕ → List ℕ
take zero xs = []
take (suc n) [] = []
take (suc n) (x ∷ xs) = x ∷ take n xs

unfoldable pub drop : ℕ → List ℕ → List ℕ
drop zero xs = xs
drop (suc n) [] = []
drop (suc n) (x ∷ xs) = drop n xs

unfoldable pub joined : List (List ℕ) → List ℕ
joined [] = []
joined (v ∷ vs) = v ++ joined vs

abbrev pub spl_size : ℕ
spl_size = 4

-- The lengths of all vectors of a chain, and their bytes.
unfoldable pub chain_len : List Pdu → ℕ
chain_len [] = 0
chain_len (p ∷ chain) = sum_len p.out.iov + chain_len chain

unfoldable pub vectors : List Pdu → List (List ℕ)
vectors [] = []
vectors (p ∷ chain) = map (λ (io : Iovec). take io.len io.buf) p.out.iov ++ vectors chain

-- `spl`, a uint32.
unfoldable pub frame_len : Pdu → List Pdu → ℕ
frame_len p chain = if p.seal then length p.crypt else chain_len (p ∷ chain) % 2 ^ 32

-- `htobe32`
abbrev pub big_endian32 : ℕ → List ℕ
big_endian32 v = v / 2 ^ 24 % 256 ∷ v / 2 ^ 16 % 256 ∷ v / 2 ^ 8 % 256 ∷ v % 256 ∷ []

-- What stands behind the length: the sealed bytes, or the vectors of all PDUs.
unfoldable pub bodies : Pdu → List Pdu → List (List ℕ)
bodies p chain = if p.seal then p.crypt ∷ [] else vectors (p ∷ chain)

-- `iov[niov] = ...; niov++` for each of the vectors. The array has SMB2_MAX_VECTORS entries: `none` is
-- a write past its end.
unfoldable pub fill_iov : ℕ → List (List ℕ) → Option (List (List ℕ))
fill_iov niov [] = some []
fill_iov niov (v ∷ vs) =
    let rest = fill_iov (niov + 1) vs in
    if ltb niov max_vectors then elim rest [ none ↦ none | some iov ↦ some (v ∷ iov) ] else none

-- The array `iov`, from `iov[1]` on and then its first entry, the length.
unfoldable pub gather : Pdu → List Pdu → Option (List (List ℕ))
unfolding fill_iov bodies
gather p chain = elim (fill_iov 1 (bodies p chain)) [
  | none ↦ none
  | some iov ↦ some (big_endian32 (frame_len p chain) ∷ iov)
]

-- `while (num_done >= tmpiov->iov_len)`, and the vector that is begun. There is one, since the chain
-- leaves the queue when all its bytes are written.
unfoldable pub skip_done : ℕ → List (List ℕ) → List (List ℕ)
skip_done n [] = []
skip_done n (v ∷ vs) =
    let rest = skip_done (n - length v) vs in if leb (length v) n then rest else drop n v ∷ vs

-- What `writev` is given.
unfoldable pub pending : ℕ → List (List ℕ) → List ℕ
pending num_done iov = joined (skip_done num_done iov)

-- A chain that is sent: a client takes its charge off the credits and waits for the replies, and a
-- server lets its replies go.
unfoldable pub finish_chain : Context → Queues → List Pdu → Context × Queues
finish_chain c qs [] = (c, qs)
finish_chain c qs (p ∷ chain) =
    if c.is_server
    then finish_chain (record c { credits = 128 }) (free_pdu qs (p ∷ [])) chain
    else finish_chain (record c { credits = c.credits - charge_for_one c p.header })
        (record qs { waitqueue = list_add_end qs.waitqueue p }) chain

-- The state after `writev` took `count` bytes of the first chain, whose array is `iov`, with `rest`
-- behind that.
unfoldable pub after_write : Sender → Pdu → List Pdu → List (List Pdu) → List (List ℕ) → ℕ → Sender
after_write s p chain rest iov count =
    let p' = record p { out = record p.out { num_done = p.out.num_done + count } } in
    let wire = s.wire ++ take count (pending p.out.num_done iov) in
    let (c, qs) = finish_chain s.context (record s.queues { outqueue = rest }) (p' ∷ chain) in
    if p'.out.num_done == spl_size + frame_len p chain
    then record { context = c; queues = qs; wire = wire }
    else record s { queues = record s.queues { outqueue = (p' ∷ chain) ∷ rest }; wire = wire }

abbrev pub at_most : ℕ → ℕ → ℕ
at_most n m = if leb n m then n else m

-- What `smb2_write_to_socket` comes to: 0, -1, or a write past the end of `iov`.
pub data WriteResult : Type 0 where
  finished failed overflow : WriteResult

-- The loop, with what each call of `writev` meets; a call past the end of that list would block. A
-- member of the out queue is not empty.
unfoldable pub write_loop : List Kernel → Sender → WriteResult × Sender
write_loop [] s = (finished, s)
write_loop (k ∷ ks) s = elim s.queues.outqueue [
  | [] ↦ (finished, s)
  | [] ∷ rest ↦ (finished, s)
  | (p ∷ chain) ∷ rest ↦
      if ltb s.context.credits (credit_charge s.context (p ∷ chain))
      then (finished, s)
      else elim (gather p chain) [
        | none ↦ (overflow, s)
        | some iov ↦ elim k [
          | again ↦ (finished, s)
          | broken ↦ (failed, s)
          | room n ↦
              write_loop ks
                (after_write s p chain rest iov (at_most n (length (pending p.out.num_done iov))))
        ]
      ]
]

unfoldable pub write_to_socket : Bool → List Kernel → Sender → WriteResult × Sender
write_to_socket connected ks s = if connected then write_loop ks s else (failed, s)
