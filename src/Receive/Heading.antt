-- ===== src/Receive/Heading.antt =====
-- Sources/CSMB/lib/socket.c: smb2_read_data in the states SMB2_RECV_SPL and SMB2_RECV_HEADER.
use photo_transfer_nativesmb.Common.{
  ℕ, ◌+◌, ◌-◌, ◌*◌, ◌%◌, ◌^◌, List, [], ◌∷◌, ◌++◌, Bool, true, false, ◌&&◌, not, ltb, ◌==◌,
  if◌then◌else◌, Option, none, some, bit_and, replicate, get_or,
}
use photo_transfer_nativesmb.Wire.{Iovec, ok, fail, get_bytes}
use photo_transfer_nativesmb.Smb2.{Header, Pdu, Context, header_size, tree_id, with_tree_id}
use photo_transfer_nativesmb.Smb2.Command
use photo_transfer_nativesmb.Smb2.Flags
use photo_transfer_nativesmb.Smb2.NtStatus
use photo_transfer_nativesmb.Header.{same_bytes, decode_header}
use photo_transfer_nativesmb.Pdu.{allocate_pdu}
use photo_transfer_nativesmb.Pdu.Queues.{Queues, find_pdu, list_remove, free_pdu, is_async}
use photo_transfer_nativesmb.Pdu.FixedSize.{get_fixed_size}
use photo_transfer_nativesmb.Signing.{Keys}
use photo_transfer_nativesmb.Socket.{spl_size}
use photo_transfer_nativesmb.Receive.State.{
  RecvState, at_header, at_heap, Vector, Receiver, add_vector, add_buffer, is_negative,
}

-- What a round of the machine comes to. `faults` is a write or a read outside an object. `opens`
-- asks for smb3_decrypt_pdu, `flushes` for the end of an SMB1 negotiate.
pub data Result : Type 0 where
  done again failed fault : Result

pub data Outcome : Type 0 where
  more opens flushes : Receiver → Outcome
  returns : Result → Receiver → Outcome

-- What a callback may change: the application sends, sets keys, and makes the PDU for the next
-- request of a server.
pub record Effect : Type 0 where
  pub context : Context
  pub keys : Keys
  pub queues : Queues
  pub next_pdu : Option Pdu

-- What is not part of this component: the commands' bodies, the application, the clock and the
-- memory. A body's parser returns the length of what follows, or a negative number, and changes the context.
pub record Environment : Type 0 where
  pub ecb : List ℕ → List ℕ → List ℕ
  pub hmac : List ℕ → List ℕ → List ℕ
  pub serverout_key : List ℕ
  pub process_fixed : Receiver → Pdu → Option ℕ × Context
  pub process_variable : Receiver → Pdu → Option ℕ × Context
  pub app_vectors : Pdu → List ℕ
  pub caller_frees_pdu : Pdu → Bool
  pub call_back : Receiver → Pdu → Effect
  pub new_ref : ℕ
  pub now : ℕ

abbrev pub transform_sign : List ℕ
transform_sign = 0xFD ∷ b'S' ∷ b'M' ∷ b'B' ∷ []

abbrev pub transform_size : ℕ
transform_size = 52

abbrev pub max_pdu_size : ℕ
max_pdu_size = 16 * 1024 * 1024

-- The vector that a state waits for, or the -1 for want of room.
unfoldable pub wait_for : RecvState → Option Receiver → Receiver → Outcome
wait_for state none r = returns Result.failed r
wait_for state (some r') r = more (record r' { recv_state = state })

-- `be32toh`
unfoldable pub from_big_endian32 : List ℕ → ℕ
from_big_endian32 b =
    get_or b 0 0 * 2 ^ 24 + get_or b 1 0 * 2 ^ 16 + get_or b 2 0 * 2 ^ 8 + get_or b 3 0

unfoldable pub take_spl : Receiver → Outcome
unfolding wait_for add_vector from_big_endian32
take_spl r =
    let r' = record r { spl = from_big_endian32 r.spl_bytes } in
    wait_for RecvState.header (add_vector r' at_header header_size) r'

-- The header's vector is the last; a transform header has 52 of its 64 bytes.
unfoldable pub shorten_last : List Vector → List Vector
shorten_last [] = []
shorten_last (v ∷ []) = record v { len = transform_size } ∷ []
shorten_last (v ∷ w ∷ vs) = v ∷ shorten_last (w ∷ vs)

-- `memcpy` to the start of a buffer: `none` is a write past its end.
unfoldable pub copy_bytes : List ℕ → List ℕ → Option (List ℕ)
copy_bytes buf [] = some buf
copy_bytes [] (x ∷ src) = none
copy_bytes (y ∷ buf) (x ∷ src) = elim (copy_bytes buf src) [ none ↦ none | some b ↦ some (x ∷ b) ]

-- The 12 bytes behind a transform header begin the sealed text. They are copied to the new buffer.
unfoldable pub take_transform : Receiver → Outcome
unfolding shorten_last add_buffer copy_bytes
take_transform r =
    let len = (r.spl + 2 ^ 32 - transform_size) % 2 ^ 32 in
    let r' = record r {
      iov = shorten_last r.iov;
      total_size = (r.total_size + 2 ^ 64 - 12) % 2 ^ 64;
    } in
    elim (add_buffer r' len) [
      | none ↦ returns Result.failed r'
      | some r'' ↦ elim (copy_bytes (replicate len 0) (get_bytes 12 r.header_bytes 52)) [
        | none ↦ returns Result.fault r''
        | some buf ↦ more (record r'' {
          iov = r'.iov ++ (record { place = at_heap buf; len = len } ∷ []);
          recv_state = RecvState.trfm;
        })
      ]
    ]

-- The bytes of the frame that are not read, as an `int`. Only a frame that is read from the socket
-- counts its own length field.
unfoldable pub rest_of_frame : Bool → Receiver → ℕ
rest_of_frame has_xfrmhdr r =
    let len = (r.spl + 2 ^ 64 - r.num_done) % 2 ^ 32 in
    if has_xfrmhdr then len else (len + spl_size) % 2 ^ 32

-- What a server puts into the PDU that waits for a request.
unfoldable pub note_request : Header → Header → Header
note_request hdr h =
    let h = record h { message_id = hdr.message_id } in
    let h = if is_async hdr then h else with_tree_id h (tree_id hdr) in
    record h {
      command = if ltb Command.session_setup hdr.command then hdr.command else h.command;
      credit_charge = hdr.credit_charge;
      credit_request_response = hdr.credit_request_response;
    }

-- The fixed part of the body comes next.
unfoldable pub wait_for_fixed : Receiver → Pdu → Outcome
unfolding wait_for add_buffer get_fixed_size
wait_for_fixed r pdu =
    let r = record r { current = some pdu } in
    elim (get_fixed_size r.context r.hdr pdu) [
      | none ↦ returns Result.failed r
      | some len ↦ wait_for RecvState.fixed (add_buffer r (bit_and len 0xfffe)) r
    ]

-- A notification of a broken oplock has no request.
abbrev pub is_notification : Header → Bool
is_notification hdr = hdr.command == Command.oplock_break && hdr.message_id == 2 ^ 64 - 1

-- `smb2_free_pdu(smb2, smb2->pdu)`, if there is one.
unfoldable pub drop_current : Receiver → Receiver
unfolding free_pdu
drop_current r = elim r.current [
  | none ↦ r
  | some p ↦ record r { queues = free_pdu r.queues (p ∷ []); current = none }
]

-- A reply to no request that waits is read and dropped.
unfoldable pub skip_unknown : Bool → Receiver → Outcome
unfolding wait_for add_buffer rest_of_frame
skip_unknown has_xfrmhdr r =
    let len = rest_of_frame has_xfrmhdr r in
    if not (is_negative len) && ltb max_pdu_size len
    then returns Result.failed r
    else wait_for RecvState.unknown (add_buffer r len) r

-- `pdu->prev_compound_mid && smb2_find_pdu(smb2, pdu->prev_compound_mid)`
unfoldable pub is_out_of_order : Queues → Pdu → Bool
unfolding find_pdu
is_out_of_order qs pdu =
    not (pdu.prev_compound_mid == 0)
    && elim (find_pdu qs.waitqueue pdu.prev_compound_mid) [ none ↦ false | some _ ↦ true ]

-- A client fits a reply to its request, which leaves the wait queue.
unfoldable pub find_request : Bool → Receiver → Outcome
unfolding drop_current find_pdu skip_unknown is_out_of_order list_remove wait_for_fixed
find_request has_xfrmhdr r =
    let r = drop_current r in
    elim (find_pdu r.queues.waitqueue r.hdr.message_id) [
      | none ↦ skip_unknown has_xfrmhdr r
      | some pdu ↦
          if is_out_of_order r.queues pdu
          then returns Result.failed (record r { current = some pdu })
          else wait_for_fixed
              (record r {
                queues = record r.queues { waitqueue = list_remove r.queues.waitqueue pdu.ref };
              })
              pdu
    ]

unfoldable pub take_notification : Environment → Receiver → Outcome
unfolding allocate_pdu wait_for_fixed
take_notification env r =
    let made : Option Pdu = elim r.current [
      | some pdu ↦ some pdu
      | none ↦ allocate_pdu r.context env.new_ref env.now Command.oplock_break
    ] in
    elim made [ none ↦ returns Result.failed r | some pdu ↦ wait_for_fixed r pdu ]

-- A server reads a request into the PDU that waits for one.
unfoldable pub take_request : Receiver → Outcome
unfolding note_request wait_for_fixed
take_request r = elim r.current [
  | none ↦ returns Result.failed r
  | some pdu ↦ wait_for_fixed r (record pdu { header = note_request r.hdr pdu.header })
]

-- Whether the flag says that the PDU goes the other way.
unfoldable pub is_misdirected : Context → Header → Bool
is_misdirected c hdr =
    let is_reply = not (bit_and hdr.flags Flags.server_to_redir == 0) in
    if c.is_server then is_reply else not is_reply

-- A decoded header, its credits counted.
unfoldable pub take_decoded : Environment → Bool → Receiver → Outcome
unfolding is_misdirected wait_for add_buffer rest_of_frame take_request find_request
    take_notification
take_decoded env has_xfrmhdr r =
    let granted = (r.context.credits + r.hdr.credit_request_response) % 2 ^ 32 in
    let c = if r.context.is_server then r.context else record r.context { credits = granted } in
    let r = record r { context = c; payload_offset = r.num_done } in
    if is_misdirected c r.hdr
    then returns Result.failed r
    else (if r.hdr.status == NtStatus.pending
        then wait_for RecvState.pad (add_buffer r (rest_of_frame has_xfrmhdr r)) r
        else (if c.is_server
            then take_request r
            else (if is_notification r.hdr
                then take_notification env r
                else find_request has_xfrmhdr r)))

unfoldable pub take_header : Environment → Bool → Receiver → Outcome
unfolding same_bytes get_bytes take_transform decode_header take_decoded
take_header env has_xfrmhdr r =
    let iov : Iovec = record { buf = r.header_bytes; len = header_size } in
    let (s, c, hdr) = decode_header r.context iov r.hdr in
    let r' = record r { context = c; hdr = hdr } in
    if same_bytes (get_bytes 4 r.header_bytes 0) transform_sign then take_transform r else elim s [
      | fail ↦ returns Result.failed r'
      | ok ↦
          if c.is_server && hdr.command == Command.smb1_negotiate
          then flushes r'
          else take_decoded env has_xfrmhdr r'
    ]
