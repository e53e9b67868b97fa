-- ===== src/Receive/State.antt =====
-- Sources/CSMB/lib/socket.c: the state of smb2_read_data and the vectors that it reads into.
use photo_transfer_nativesmb.Common.{
  ℕ, ◌+◌, ◌-◌, ◌%◌, ◌^◌, List, [], ◌∷◌, ◌++◌, Bool, true, ◌&&◌, ltb, leb, length, if◌then◌else◌,
  Option, none, some, replicate,
}
use photo_transfer_nativesmb.Wire.{Iovec, put_bytes}
use photo_transfer_nativesmb.Wire.Vectors.{max_vectors}
use photo_transfer_nativesmb.Smb2.{Header, Pdu, Context}
use photo_transfer_nativesmb.Pdu.Queues.{Queues}
use photo_transfer_nativesmb.Signing.{Keys}
use photo_transfer_nativesmb.Socket.{take, drop}

-- `enum smb2_recv_state`
pub data RecvState : Type 0 where
  spl header fixed variable pad trfm unknown : RecvState

-- What the buffer of an input vector is: `smb2->spl`, `smb2->header`, which the headers of a chain
-- share, or memory of its own. Memory from `malloc` and of the application holds zeros here until
-- it is read into.
pub data Place : Type 0 where
  at_spl at_header : Place
  at_heap : List ℕ → Place

pub record Vector : Type 0 where
  pub place : Place
  pub len : ℕ

-- A call of a PDU's callback: the context, its keys and the header at that time, whether the PDU came out of
-- a transform header, and the vectors from which a signature is computed.
pub record Delivery : Type 0 where
  pub context : Context
  pub keys : Keys
  pub hdr : Header
  pub is_sealed : Bool
  pub message : List Iovec

-- The part of `struct smb2_context` that receiving uses. `current` is `smb2->pdu`, `iov_offset` the
-- local variable of that name, `is_enc` is `smb2->enc != NULL`, `log` the callbacks so far.
pub record Receiver : Type 0 where
  pub context : Context
  pub keys : Keys
  pub queues : Queues
  pub passthrough : Bool
  pub hdr : Header
  pub recv_state : RecvState
  pub spl_bytes : List ℕ
  pub spl : ℕ
  pub header_bytes : List ℕ
  pub iov : List Vector
  pub num_done : ℕ
  pub total_size : ℕ
  pub payload_offset : ℕ
  pub iov_offset : ℕ
  pub current : Option Pdu
  pub next_pdu : Option Pdu
  pub is_enc : Bool
  pub log : List Delivery

-- The sum of the lengths, and the vectors as memory.
unfoldable pub vectors_len : List Vector → ℕ
vectors_len [] = 0
vectors_len (v ∷ vs) = v.len + vectors_len vs

unfoldable pub vector_bytes : Receiver → Vector → List ℕ
vector_bytes r v = elim v.place [
  | at_spl ↦ r.spl_bytes
  | at_header ↦ r.header_bytes
  | at_heap b ↦ b
]

unfoldable pub iovecs : Receiver → List Vector → List Iovec
unfolding vector_bytes
iovecs r [] = []
iovecs r (v ∷ vs) = record { buf = vector_bytes r v; len = v.len } ∷ iovecs r vs

-- An `int` in two's complement.
abbrev pub is_negative : ℕ → Bool
is_negative len = leb (2 ^ 31) len

-- `smb2_add_iovector(smb2, &smb2->in, …)`
unfoldable pub add_vector : Receiver → Place → ℕ → Option Receiver
add_vector r place len =
    if ltb (length r.iov) max_vectors
    then some (record r {
      total_size = (r.total_size + len) % 2 ^ 64;
      iov = r.iov ++ (record { place = place; len = len } ∷ []);
    })
    else none

-- `malloc(len)` and a vector for it: a negative `int` is more than there is to be had.
unfoldable pub add_buffer : Receiver → ℕ → Option Receiver
unfolding add_vector
add_buffer r len = if is_negative len then none else add_vector r (at_heap (replicate len 0)) len

-- Whether `while (num_done >= tmpiov->iov_len)` runs past the last vector.
unfoldable pub is_all_read : ℕ → List Vector → Bool
is_all_read n [] = true
is_all_read n (v ∷ vs) = let rest = is_all_read (n - v.len) vs in leb v.len n && rest

-- Bytes put at `off` of one vector.
unfoldable pub write_vector : Receiver → Vector → ℕ → List ℕ → Receiver × Vector
write_vector r v off bytes = elim v.place [
  | at_spl ↦ (record r { spl_bytes = put_bytes r.spl_bytes off bytes }, v)
  | at_header ↦ (record r { header_bytes = put_bytes r.header_bytes off bytes }, v)
  | at_heap b ↦ (r, record v { place = at_heap (put_bytes b off bytes) })
]

-- `readv` into the vectors behind the `n` bytes that are there.
unfoldable pub scatter : Receiver → List Vector → ℕ → List ℕ → Receiver × List Vector
unfolding write_vector
scatter r [] n bytes = (r, [])
scatter r (v ∷ vs) n bytes =
    let (r', v') = write_vector r v n (take (v.len - n) bytes) in
    let skipped = leb v.len n in
    let (r'', vs') =
      scatter (if skipped then r else r') vs (n - v.len)
        (if skipped then bytes else drop (v.len - n) bytes) in
    (r'', (if skipped then v else v') ∷ vs')

unfoldable pub read_into : Receiver → List ℕ → Receiver
unfolding scatter
read_into r bytes =
    let (r', iov) = scatter r r.iov r.num_done bytes in
    record r' { iov = iov; num_done = r.num_done + length bytes }
