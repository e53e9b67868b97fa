-- ===== src/Receive/Loop.antt =====
-- Sources/CSMB/lib/socket.c: the rounds of smb2_read_data, smb2_read_from_socket and
-- smb2_read_from_buf; Sources/CSMB/lib/smb3-seal.c: smb3_decrypt_pdu.
use photo_transfer_nativesmb.Common.{
  ℕ, zero, suc, ◌-◌, ◌%◌, ◌^◌, List, [], ◌∷◌, Bool, true, false, ltb, ◌==◌, length, if◌then◌else◌,
  Option, none, some, replicate,
}
use photo_transfer_nativesmb.Wire.{Status, ok, fail, get_bytes}
use photo_transfer_nativesmb.Smb2.{Pdu, header_size}
use photo_transfer_nativesmb.Pdu.Queues.{list_add_end}
use photo_transfer_nativesmb.Socket.{take, drop, at_most, spl_size}
use photo_transfer_nativesmb.Ccm.{ccm_decrypt}
use photo_transfer_nativesmb.Receive.State.{
  RecvState, at_spl, at_header, Vector, Receiver, vectors_len, add_vector, is_all_read, read_into,
  vector_bytes,
}
use photo_transfer_nativesmb.Receive.Heading.{
  Result, Outcome, more, opens, flushes, returns, Environment, take_spl, take_header,
}
use photo_transfer_nativesmb.Receive.Payload.{take_fixed, take_variable, finish, deliver}

-- What a call of `readv` meets: some bytes are there (none at the end of the connection), it would
-- block, or it fails otherwise.
pub data Arrival : Type 0 where
  ready : ℕ → Arrival
  empty broken : Arrival

-- What smb2_read_data returns, the calls of `readv` to come, and the bytes that they will find.
pub record Reading : Type 0 where
  pub result : Result
  pub receiver : Receiver
  pub arrivals : List Arrival
  pub stream : List ℕ

-- The `switch` on the state, when all vectors are read.
unfoldable pub advance_at : RecvState → Environment → Bool → Receiver → Outcome
unfolding take_spl take_header take_fixed take_variable finish
advance_at RecvState.spl env has_xfrmhdr r = take_spl r
advance_at RecvState.header env has_xfrmhdr r = take_header env has_xfrmhdr r
advance_at RecvState.fixed env has_xfrmhdr r = take_fixed env has_xfrmhdr r
advance_at RecvState.variable env has_xfrmhdr r = take_variable env has_xfrmhdr r
advance_at RecvState.pad env has_xfrmhdr r = finish env has_xfrmhdr r
advance_at RecvState.trfm env has_xfrmhdr r = opens (record r { num_done = 0 })
advance_at RecvState.unknown env has_xfrmhdr r = returns Result.done (record r { num_done = 0 })

unfoldable pub advance : Environment → Bool → Receiver → Outcome
unfolding advance_at
advance env has_xfrmhdr r = advance_at r.recv_state env has_xfrmhdr r

-- One round, with the bytes that `readv` brought.
unfoldable pub round : Environment → Bool → Receiver → List ℕ → Outcome
unfolding advance read_into
round env has_xfrmhdr r bytes =
    let r' = read_into r bytes in
    if length bytes == 0
    then returns Result.failed r
    else (if ltb r'.num_done r'.total_size then more r' else advance env has_xfrmhdr r')

abbrev pub stop : Result → Receiver → List Arrival → List ℕ → Reading
stop result r arrivals s = record { result = result; receiver = r; arrivals = arrivals; stream = s }

-- The callback of an SMB1 negotiate. The first argument is `smb2->pdu`.
unfoldable pub end_smb1 :
    Option Pdu → Environment → Bool → Receiver → List Arrival → List ℕ → Reading
unfolding list_add_end deliver
end_smb1 none env has_xfrmhdr r arrivals s = stop Result.fault r arrivals s
end_smb1 (some pdu) env has_xfrmhdr r arrivals s =
    let waiting = record r {
      queues = record r.queues { waitqueue = list_add_end r.queues.waitqueue pdu };
      num_done = 0;
    } in
    let called = deliver env has_xfrmhdr waiting pdu in
    stop Result.done (record called { current = called.next_pdu; next_pdu = none }) arrivals s

-- The rest of an SMB1 negotiate is thrown away, 32 bytes at a time.
unfoldable pub flush_smb1 : Environment → Bool → Receiver → List Arrival → List ℕ → Reading
unfolding end_smb1
flush_smb1 env has_xfrmhdr r [] s = end_smb1 r.current env has_xfrmhdr r [] s
flush_smb1 env has_xfrmhdr r (a ∷ arrivals) s = elim a [
  | empty ↦ end_smb1 r.current env has_xfrmhdr r arrivals s
  | broken ↦ end_smb1 r.current env has_xfrmhdr r arrivals s
  | ready n ↦
      let count = at_most n (at_most 32 (length s)) in
      let rest = flush_smb1 env has_xfrmhdr r arrivals (drop count s) in
      if count == 0 then end_smb1 r.current env has_xfrmhdr r arrivals s else rest
]

-- What follows a round: the next one, the sealed text, or a return.
unfoldable pub conclude :
    Outcome
    → (Receiver → Reading)
    → (Receiver → Result × Receiver)
    → Environment
    → Bool
    → List Arrival
    → List ℕ
    → Reading
unfolding flush_smb1
conclude (more r) go decrypt env has_xfrmhdr arrivals s = go r
conclude (flushes r) go decrypt env has_xfrmhdr arrivals s = flush_smb1 env has_xfrmhdr r arrivals s
conclude (opens r) go decrypt env has_xfrmhdr arrivals s =
    let (result, r') = decrypt r in stop result r' arrivals s
conclude (returns result r) go decrypt env has_xfrmhdr arrivals s = stop result r arrivals s

-- smb2_read_data, with what smb3_decrypt_pdu returns. A call of `readv` past the end of the list of
-- arrivals would block.
unfoldable pub read_data :
    Environment → Bool → (Receiver → Result × Receiver) → Receiver → List Arrival → List ℕ → Reading
unfolding is_all_read round conclude vectors_len
read_data env has_xfrmhdr decrypt r [] s = stop Result.again r [] s
read_data env has_xfrmhdr decrypt r (empty ∷ arrivals) s =
    if is_all_read r.num_done r.iov
    then stop Result.fault r arrivals s
    else stop Result.again r arrivals s
read_data env has_xfrmhdr decrypt r (broken ∷ arrivals) s =
    if is_all_read r.num_done r.iov
    then stop Result.fault r arrivals s
    else stop Result.failed r arrivals s
read_data env has_xfrmhdr decrypt r (ready n ∷ arrivals) s =
    let count = at_most n (at_most (vectors_len r.iov - r.num_done) (length s)) in
    let go = λ (r' : Receiver). read_data env has_xfrmhdr decrypt r' arrivals (drop count s) in
    let next =
      conclude (round env has_xfrmhdr r (take count s)) go decrypt env has_xfrmhdr arrivals
        (drop count s) in
    if is_all_read r.num_done r.iov then stop Result.fault r arrivals s else next

-- The last two vectors: the transform header and the sealed text.
unfoldable pub last_two : List Vector → Option (Vector × Vector)
last_two [] = none
last_two (v ∷ []) = none
last_two (v ∷ w ∷ []) = some (v, w)
last_two (v ∷ w ∷ x ∷ vs) = last_two (w ∷ x ∷ vs)

-- The receiver that goes on with the opened text of `len` bytes.
unfoldable pub begin_opened : Receiver → ℕ → Option Receiver
unfolding add_vector
begin_opened r len =
    add_vector
      (record r {
        is_enc = true;
        iov = [];
        num_done = 0;
        total_size = 0;
        spl = len % 2 ^ 32;
        recv_state = RecvState.header;
        iov_offset = 0;
      })
      at_header header_size

-- A call of smb2_readv_from_buf takes what it has room for, or finds nothing left. A return other
-- than 0 of smb2_read_data is a failure of smb3_decrypt_pdu.
abbrev pub closed : Result → Receiver → Result × Receiver
closed Result.done r = (Result.done, record r { is_enc = false })
closed Result.fault r = (Result.fault, record r { is_enc = false })
closed Result.again r = (Result.failed, record r { is_enc = false })
closed Result.failed r = (Result.failed, record r { is_enc = false })

-- smb2_read_from_buf, by what the transform headers in the opened text come to.
unfoldable pub read_from_buf :
    Environment → (Receiver → Result × Receiver) → Receiver → List ℕ → Result × Receiver
unfolding begin_opened read_data
read_from_buf env decrypt r opened =
    let calls = replicate (suc (length opened)) (ready (length opened)) in
    elim (begin_opened r (length opened)) [
      | none ↦ (Result.failed, record r { is_enc = false })
      | some r' ↦ let d = read_data env true decrypt r' calls opened in closed d.result d.receiver
    ]

abbrev pub if_opened : Status → Result × Receiver → Result × Receiver → Result × Receiver
if_opened ok x y = x
if_opened fail x y = y

-- The transform header has the nonce, the associated data and the tag.
unfoldable pub open_sealed :
    Option (Vector × Vector)
    → Environment
    → (Receiver → Result × Receiver)
    → Receiver
    → Result × Receiver
unfolding vector_bytes get_bytes ccm_decrypt read_from_buf
open_sealed none env decrypt r = (Result.fault, r)
open_sealed (some (v, w)) env decrypt r =
    let heading = vector_bytes r v in
    let (s, opened) =
      ccm_decrypt env.ecb env.serverout_key (get_bytes 11 heading 20) (get_bytes 32 heading 20)
        (take w.len (vector_bytes r w)) (get_bytes 16 heading 4) in
    if_opened s (read_from_buf env decrypt r opened) (Result.failed, r)

-- smb3_decrypt_pdu and smb2_read_from_buf call each other where a sealed text holds another
-- transform header; each text is shorter than the one around it.
unfoldable pub decrypt_pdu : ℕ → Environment → Receiver → Result × Receiver
unfolding last_two open_sealed
decrypt_pdu zero env r = (Result.failed, r)
decrypt_pdu (suc fuel) env r = open_sealed (last_two r.iov) env (decrypt_pdu fuel env) r

-- A new frame begins with its length.
unfoldable pub begin_frame : Receiver → Option Receiver
unfolding add_vector
begin_frame r =
    if r.num_done == 0
    then add_vector
        (record r {
          recv_state = RecvState.spl;
          spl_bytes = replicate 4 0;
          spl = 0;
          iov = [];
          total_size = 0;
        })
        at_spl spl_size
    else some r

-- Only a return of 0 is followed by the next round.
unfoldable pub next_frame : Result → (Reading → Reading) → Reading → Reading
next_frame Result.done go d = go d
next_frame Result.again go d = d
next_frame Result.failed go d = d
next_frame Result.fault go d = d

-- A frame that is begun, or none for want of room for its length.
unfoldable pub with_frame : Option Receiver → (Receiver → Reading) → Reading → Reading
with_frame none k d = d
with_frame (some r) k d = k r

-- The loop of smb2_read_from_socket, with fuel for its rounds: each uses up a call of `readv`.
unfoldable pub read_frames : ℕ → Environment → Receiver → List Arrival → List ℕ → Reading
unfolding begin_frame with_frame read_data decrypt_pdu next_frame
read_frames zero env r arrivals s = stop Result.again r arrivals s
read_frames (suc fuel) env r arrivals s =
    let go = λ (d : Reading). read_frames fuel env d.receiver d.arrivals d.stream in
    let read = λ (r' : Receiver).
      (let d =
          read_data env false (decrypt_pdu (suc r'.spl) env) (record r' { iov_offset = 0 }) arrivals
            s in
        next_frame d.result go d) in
    with_frame (begin_frame r) read (stop Result.failed r arrivals s)

-- `-EAGAIN` is a return of 0 here.
unfoldable pub read_from_socket : Environment → Receiver → List Arrival → List ℕ → Reading
unfolding read_frames
read_from_socket env r arrivals s = read_frames (suc (length arrivals)) env r arrivals s
