-- ===== src/Seal/Tests.antt =====
-- Sealing: the theorem at a concrete chain.
use photo_transfer_nativesmb.Common.{
  ℕ, ◌≡◌, refl, List, [], ◌∷◌, true, false, replicate, some, none,
}
use photo_transfer_nativesmb.Smb2.{Header, Pdu, Context}
use photo_transfer_nativesmb.Smb2.Command
use photo_transfer_nativesmb.Header.{smb2_sign}
use photo_transfer_nativesmb.Socket.{take, drop, joined, vectors}
use photo_transfer_nativesmb.Receive.State.{RecvState, Receiver, Vector, at_heap, vector_bytes}
use photo_transfer_nativesmb.Receive.Heading.{Environment}
use photo_transfer_nativesmb.Receive.Loop.{last_two, decrypt_pdu, read_from_buf}
use photo_transfer_nativesmb.Wire.{put_le}
use photo_transfer_nativesmb.Signing.{xor}
use photo_transfer_nativesmb.Ccm.{ccm_tag, ccm_crypt, generate_t, generate_s}
use photo_transfer_nativesmb.Seal.{encrypt_pdu}
use photo_transfer_nativesmb.Seal.Opened.{HasFrame, decrypt_pdu-encrypt_pdu}

abbrev sealing : Context
sealing = record {
  is_server = false;
  dialect = 0x0302;
  credits = 10;
  seal = true;
  sign = false;
  timeout = 30;
  message_id = 5;
  session_id = 77;
  async_id = 6;
  tree_ids = 0xdeadbeef ∷ 5 ∷ replicate 30 0;
  tree_id_top = 1;
  tree_id_cur = 1;
}

abbrev some_header : Header
some_header = record {
  protocol_id = smb2_sign;
  struct_size = 64;
  credit_charge = 1;
  status = 0;
  command = Command.echo;
  credit_request_response = 3;
  flags = 0;
  next_command = 0;
  message_id = 4;
  async_sync = 0;
  session_id = 77;
  signature = replicate 16 0;
}

-- A PDU of two vectors.
abbrev message : Pdu
message = record {
  ref = 9;
  header = some_header;
  prev_compound_mid = 0;
  out = record {
    num_done = 0;
    total_size = 5;
    iov = record { buf = 1 ∷ 2 ∷ 3 ∷ []; len = 3 } ∷ record { buf = 4 ∷ 5 ∷ []; len = 2 } ∷ [];
  };
  seal = true;
  crypt = [];
  timeout = 0;
}

-- The block cipher keeps a block as it is.
abbrev opening : Environment
opening = record {
  ecb = λ k b. b;
  hmac = λ k m. k;
  serverout_key = replicate 16 1;
  process_fixed = λ r p. (some 0, r.context);
  process_variable = λ r p. (some 0, r.context);
  app_vectors = λ p. [];
  caller_frees_pdu = λ p. false;
  call_back =
      λ r p. record { context = r.context; keys = r.keys; queues = r.queues; next_pdu = none };
  new_ref = 100;
  now = 0;
}

abbrev nonce : List ℕ
nonce = 11 ∷ 12 ∷ 13 ∷ 14 ∷ 15 ∷ 16 ∷ 17 ∷ 18 ∷ 19 ∷ 20 ∷ 21 ∷ []

abbrev frame : List ℕ
frame = (encrypt_pdu opening.ecb opening.serverout_key sealing nonce message []).crypt

abbrev front : Vector
front = record { place = at_heap (take 52 frame); len = 52 }

abbrev back : Vector
back = record { place = at_heap (drop 52 frame); len = 5 }

abbrev receiving : Receiver
receiving = record {
  context = sealing;
  keys = record { session_key_size = 16; signing_key = replicate 16 2 };
  queues = record { outqueue = []; waitqueue = [] };
  passthrough = false;
  hdr = some_header;
  recv_state = RecvState.trfm;
  spl_bytes = replicate 4 0;
  spl = 57;
  header_bytes = replicate 64 0;
  iov = front ∷ back ∷ [];
  num_done = 0;
  total_size = 61;
  payload_offset = 0;
  iov_offset = 0;
  current = none;
  next_pdu = none;
  is_enc = false;
  log = [];
}

frame-HasFrame : HasFrame receiving front back frame
unfolding last_two encrypt_pdu vector_bytes take drop ccm_tag xor generate_t generate_s put_le
    ccm_crypt
frame-HasFrame = record { last = refl; heading = refl; text = refl }

decrypt_pdu-encrypt_pdu_example :
    decrypt_pdu 3 opening receiving
    ≡ read_from_buf opening (decrypt_pdu 2 opening) receiving (1 ∷ 2 ∷ 3 ∷ 4 ∷ 5 ∷ [])
unfolding joined vectors take
decrypt_pdu-encrypt_pdu_example =
    decrypt_pdu-encrypt_pdu opening sealing nonce message [] 2 receiving front back refl refl
      frame-HasFrame
