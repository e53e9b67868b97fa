-- ===== src/Receive/Tests.antt =====
-- A client that receives a reply: runs of the machine, and its theorems at concrete inputs.
use photo_transfer_nativesmb.Wire.{get_le, get_bytes, put_le}
use photo_transfer_nativesmb.Socket.{drop, take}
use photo_transfer_nativesmb.Common.{
  ℕ, ◌+◌, ◌*◌, ◌^◌, ◌≡◌, refl, [], ◌∷◌, ◌++◌, List, length, replicate, true, false, none, some,
  arith, All, ◌⊎◌, ◌<◌, ◌≤◌, ◌-◌,
}
use photo_transfer_nativesmb.Smb2.{Header, Pdu, Context}
use photo_transfer_nativesmb.Smb2.Command
use photo_transfer_nativesmb.Header.{write_header, smb2_sign}
use photo_transfer_nativesmb.Receive.State.{
  RecvState, at_heap, Receiver, at_spl, at_header, vectors_len,
}
use photo_transfer_nativesmb.Signing.{aes_cmac_128}
use photo_transfer_nativesmb.Receive.Heading.{Environment, Result, take_transform, shorten_last}
use photo_transfer_nativesmb.Receive.Loop.{Arrival, ready, empty, read_from_socket, Reading}
use photo_transfer_nativesmb.Receive.Kept.{receiver_of}
use photo_transfer_nativesmb.Receive.Policy.{IsPermitted}
use photo_transfer_nativesmb.Receive.Delivered.{read_from_socket-IsPermitted}
use photo_transfer_nativesmb.Receive.Faults.{result_of, take_transform_cases}

abbrev client : Context
client = record {
  is_server = false;
  dialect = 0x0302;
  credits = 10;
  seal = false;
  sign = false;
  timeout = 30;
  message_id = 5;
  session_id = 77;
  async_id = 6;
  tree_ids = 0xdeadbeef ∷ 5 ∷ replicate 30 0;
  tree_id_top = 1;
  tree_id_cur = 1;
}

abbrev echo_header : ℕ → Header
echo_header flags = record {
  protocol_id = smb2_sign;
  struct_size = 64;
  credit_charge = 1;
  status = 0;
  command = Command.echo;
  credit_request_response = 3;
  flags = flags;
  next_command = 0;
  message_id = 4;
  async_sync = 0xfeff + 5 * 2 ^ 32;
  session_id = 77;
  signature = replicate 16 0;
}

abbrev request : Pdu
request = record {
  ref = 9;
  header = echo_header 0;
  prev_compound_mid = 0;
  out = record { num_done = 68; total_size = 68; iov = [] };
  seal = false;
  crypt = [];
  timeout = 0;
}

-- The application does nothing, and the bodies have no variable part.
abbrev quiet : Environment
quiet = record {
  ecb = λ k b. b;
  hmac = λ k m. k;
  serverout_key = replicate 16 1;
  process_fixed = λ r p. (some 0, r.context);
  process_variable = λ r p. (some 0, r.context);
  app_vectors = λ p. [];
  caller_frees_pdu = λ p. false;
  call_back =
      λ r p. record { context = r.context; keys = r.keys; queues = r.queues; next_pdu = none };
  new_ref = 100;
  now = 0;
}

abbrev waiting : Context → Receiver
waiting c = record {
  context = c;
  keys = record { session_key_size = 16; signing_key = replicate 16 2 };
  queues = record { outqueue = []; waitqueue = request ∷ [] };
  passthrough = false;
  hdr = echo_header 0;
  recv_state = RecvState.spl;
  spl_bytes = replicate 4 0;
  spl = 0;
  header_bytes = replicate 64 0;
  iov = [];
  num_done = 0;
  total_size = 0;
  payload_offset = 0;
  iov_offset = 0;
  current = none;
  next_pdu = none;
  is_enc = false;
  log = [];
}

-- One whose cipher gives zeros, so that a signature of zeros is right.
abbrev zeros : Environment
zeros = record quiet { ecb = λ k b. replicate 16 0 }

abbrev frame : Header → List ℕ
frame h =
    (0 ∷ 0 ∷ 0 ∷ 68 ∷ [])
    ++ ((write_header (record { buf = replicate 64 0; len = 64 }) h).buf ++ (4 ∷ 0 ∷ 0 ∷ 0 ∷ []))

abbrev read_echo : Context → List Arrival → Reading
read_echo c arrivals = read_from_socket quiet (waiting c) arrivals (frame (echo_header 1))

-- The reply is delivered, and its request leaves the wait queue.
echo_read :
    let d = read_echo client (ready 30 ∷ ready 300 ∷ ready 300 ∷ empty ∷ []) in
    (d.result ≡ Result.again)
    × (d.stream ≡ [])
    × (d.receiver.queues.waitqueue ≡ [])
    × (length d.receiver.log ≡ 1)
    × (d.receiver.context.credits ≡ 13)
unfolding read_from_socket take write_header put_le drop get_le
echo_read = (refl, refl, refl, refl, refl)

-- A client that signs refuses it.
unsigned_refused :
    let d =
      read_echo (record client { sign = true }) (ready 30 ∷ ready 300 ∷ ready 300 ∷ empty ∷ []) in
    (d.result ≡ Result.failed) × (d.receiver.log ≡ [])
unfolding read_from_socket take write_header put_le drop get_le
unsigned_refused = (refl, refl)

-- A client that signs gets a reply with the flag of a signature and the right one.
abbrev read_signed : Reading
read_signed =
    read_from_socket zeros (waiting (record client { sign = true }))
      (ready 30 ∷ ready 300 ∷ ready 300 ∷ empty ∷ []) (frame (echo_header 9))

signed_delivered :
    (read_signed.result ≡ Result.again)
    × (read_signed.receiver.queues.waitqueue ≡ [])
    × (length read_signed.receiver.log ≡ 1)
unfolding read_from_socket take write_header put_le drop get_le aes_cmac_128
signed_delivered = (refl, refl, refl)

read_from_socket-IsPermitted_example : All (IsPermitted zeros) read_signed.receiver.log
read_from_socket-IsPermitted_example =
    read_from_socket-IsPermitted zeros (waiting (record client { sign = true }))
      (ready 30 ∷ ready 300 ∷ ready 300 ∷ empty ∷ []) (frame (echo_header 9)) tt

-- A transform header in a frame of 55 bytes.
abbrev short_frame : Receiver
short_frame = record (waiting client) {
  spl = 55;
  num_done = 68;
  total_size = 68;
  iov = record { place = at_spl; len = 4 } ∷ record { place = at_header; len = 64 } ∷ [];
}

take_transform_cases_example :
    let r = short_frame in
    let o = take_transform r in
    ((r.spl < 52) ⊎ (2 ^ 31 + 52 ≤ r.spl)) × (result_of o ≡ some Result.failed)
    ⊎ (52 ≤ r.spl) × (r.spl < 64) × (result_of o ≡ some Result.fault)
    ⊎ (64 ≤ r.spl)
      × (r.spl < 2 ^ 31 + 52)
      × (result_of o ≡ none)
      × ((receiver_of o).recv_state ≡ RecvState.trfm)
      × (length (receiver_of o).iov ≡ length r.iov + 1)
      × (vectors_len (receiver_of o).iov ≡ vectors_len (shorten_last r.iov) + (r.spl - 52))
      × ((buf : List ℕ) × ((receiver_of o).iov
            ≡ shorten_last r.iov ++ (record { place = at_heap buf; len = r.spl - 52 } ∷ []))
          × (buf ≡ get_bytes 12 r.header_bytes 52 ++ replicate (r.spl - 64) 0))
take_transform_cases_example = take_transform_cases short_frame (omega arith) (omega arith)
