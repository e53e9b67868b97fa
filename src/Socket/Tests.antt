-- ===== src/Socket/Tests.antt =====
-- A client that sends a chain of two small PDUs, in pieces and at once.
use photo_transfer_nativesmb.Socket.Frame.{frame, entries}
use photo_transfer_nativesmb.Socket.{
  take, vectors, drop, gather, skip_done, joined, pending, after_write, write_loop, Sender, room,
  again, finished, overflow, WriteResult, bodies, fill_iov, finish_chain, write_to_socket,
  chain_len, frame_len,
}
use photo_transfer_nativesmb.Common.{
  length, ℕ, ◌+◌, ◌≡◌, refl, List, [], ◌∷◌, replicate, true, false, arith,
}
use photo_transfer_nativesmb.Wire.Vectors.{sum_len}
use photo_transfer_nativesmb.Smb2.{Pdu, Context}
use photo_transfer_nativesmb.Smb2.Command
use photo_transfer_nativesmb.Header.{smb2_sign}
use photo_transfer_nativesmb.Pdu.{credit_charge, charge_for_one}
use photo_transfer_nativesmb.Pdu.Queues.{list_add_end}
use photo_transfer_nativesmb.Socket.Flow.{IsFlow, IsSendable, stream, total_charge}
use photo_transfer_nativesmb.Socket.Send.{is_overflow, write_to_socket-IsFlow}
use photo_transfer_nativesmb.Socket.Drain.{IsTaken, write_to_socket_all}

abbrev client : Context
client = record {
  is_server = false;
  dialect = 0x0302;
  credits = 3;
  seal = false;
  sign = false;
  timeout = 0;
  message_id = 4;
  session_id = 77;
  async_id = 0;
  tree_ids = replicate 32 5;
  tree_id_top = 1;
  tree_id_cur = 1;
}

abbrev request : ℕ → Pdu
request ref = record {
  ref = ref;
  header = record {
    protocol_id = smb2_sign;
    struct_size = 64;
    credit_charge = 1;
    status = 0;
    command = Command.read;
    credit_request_response = 100;
    flags = 0;
    next_command = 0;
    message_id = ref;
    async_sync = 0xfeff;
    session_id = 77;
    signature = replicate 16 0;
  };
  prev_compound_mid = 0;
  out = record {
    num_done = 0;
    total_size = 3;
    iov = record { buf = ref ∷ 7 ∷ 8 ∷ []; len = 3 } ∷ [];
  };
  seal = false;
  crypt = [];
  timeout = 0;
}

abbrev sender : Sender
sender = record {
  context = client;
  queues = record { outqueue = (request 1 ∷ request 2 ∷ []) ∷ []; waitqueue = [] };
  wire = [];
}

sender-IsSendable : IsSendable (request 1 ∷ request 2 ∷ [])
unfolding IsSendable chain_len sum_len bodies vectors
sender-IsSendable = record {
  few = omega arith;
  backed = ((omega arith, tt), ((omega arith, tt), tt));
  small = omega arith;
}

sender-IsTaken : IsTaken 100 (request 1 ∷ request 2 ∷ [])
unfolding IsTaken frame_len chain_len sum_len
sender-IsTaken = (omega arith, omega arith)

-- The kernel takes five bytes, and then the rest: the chain is sent.
abbrev sent : WriteResult × Sender
sent = write_to_socket true (room 5 ∷ room 100 ∷ again ∷ []) sender

write_to_socket-IsFlow_example :
    (is_overflow sent.0 ≡ false) × (moved : List (List Pdu)) × IsFlow sender sent.1 moved
write_to_socket-IsFlow_example =
    write_to_socket-IsFlow true (room 5 ∷ room 100 ∷ again ∷ []) sender refl (sender-IsSendable, tt)

pieces :
    (sent.0 ≡ finished)
    × (sent.1.wire ≡ 0 ∷ 0 ∷ 0 ∷ 6 ∷ 1 ∷ 7 ∷ 8 ∷ 2 ∷ 7 ∷ 8 ∷ [])
    × (sent.1.queues.outqueue ≡ [])
    × (length sent.1.queues.waitqueue ≡ 2)
    × (sent.1.context.credits ≡ 1)
unfolding write_to_socket write_loop credit_charge charge_for_one after_write pending joined
    skip_done gather bodies fill_iov drop vectors take frame_len chain_len sum_len finish_chain
    list_add_end
pieces = (refl, refl, refl, refl, refl)

-- 256 vectors and the length are more than the array holds.
abbrev crowded : Pdu
crowded = record (request 1) {
  out = record {
    num_done = 0;
    total_size = 256;
    iov = replicate 256 (record { buf = 7 ∷ []; len = 1 });
  };
}

overrun :
    (write_to_socket true
      (room 500 ∷ [])
      (record sender { queues = record { outqueue = (crowded ∷ []) ∷ []; waitqueue = [] } })).0
    ≡ overflow
unfolding write_to_socket write_loop credit_charge charge_for_one gather bodies fill_iov vectors
    take
overrun = refl

write_to_socket_all_example :
    let (result, t) = write_to_socket true (room 100 ∷ []) sender in
    (result ≡ finished)
    × (t.queues.outqueue ≡ [])
    × (t.wire ≡ 0 ∷ 0 ∷ 0 ∷ 6 ∷ 1 ∷ 7 ∷ 8 ∷ 2 ∷ 7 ∷ 8 ∷ [])
    × (t.context.credits + 2 ≡ 3)
unfolding stream total_charge credit_charge charge_for_one drop frame joined entries bodies
    frame_len vectors chain_len take sum_len
write_to_socket_all_example =
    write_to_socket_all 100 sender refl (sender-IsSendable, tt) (sender-IsTaken, tt) (omega arith)
