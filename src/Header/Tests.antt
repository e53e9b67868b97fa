-- ===== src/Header/Tests.antt =====
-- A run of the header's marshalling, and its theorem at a concrete input.
use photo_transfer_nativesmb.Common.{◌≡◌, ◌∷◌, replicate, false, arith}
use photo_transfer_nativesmb.Wire.{Iovec, ok}
use photo_transfer_nativesmb.Smb2.{Header, Context}
use photo_transfer_nativesmb.Smb2.Command
use photo_transfer_nativesmb.Header.{encode_header, decode_header, note_header, smb2_sign}
use photo_transfer_nativesmb.Header.RoundTrip.{IsWire, IsHeaderSized, decode_header-encode_header}

abbrev blank : Iovec
blank = record { buf = replicate 64 0; len = 64 }

abbrev read_request : Header
read_request = record {
  protocol_id = smb2_sign;
  struct_size = 64;
  credit_charge = 3;
  status = 0;
  command = Command.read;
  credit_request_response = 100;
  flags = 0;
  next_command = 0;
  message_id = 0;
  async_sync = 0x0000_0005_0000_feff;
  session_id = 77;
  signature = replicate 16 0;
}

abbrev client : Context
client = record {
  is_server = false;
  dialect = 0x0302;
  credits = 10;
  seal = false;
  sign = false;
  timeout = 0;
  message_id = 4;
  session_id = 77;
  async_id = 0;
  tree_ids = 0xdeadbeef ∷ 5 ∷ replicate 30 0;
  tree_id_top = 1;
  tree_id_cur = 1;
}

blank-IsHeaderSized : IsHeaderSized blank
blank-IsHeaderSized = omega arith

read_request-IsWire : IsWire read_request
read_request-IsWire = ground arith

decode_header-encode_header_example :
    let (d, iov', h') = encode_header client blank read_request in
    decode_header client iov' read_request ≡ (ok, note_header client h', h')
decode_header-encode_header_example =
    decode_header-encode_header client client blank read_request read_request (omega arith)
      blank-IsHeaderSized read_request-IsWire
