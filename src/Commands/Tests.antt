-- ===== src/Commands/Tests.antt =====
-- Bodies of commands: the theorems at concrete inputs.
use photo_transfer_nativesmb.Wire.Vectors.{sum_len, pad_to_64bit, add_iovector}
use photo_transfer_nativesmb.Pdu.{allocate_pdu, new_header, is_error_response}
use photo_transfer_nativesmb.Commands.Write.{cmd_write_reply_async, WriteReply, write_reply_fields}
use photo_transfer_nativesmb.Common.{
  ℕ, ◌≡◌, refl, [], ◌∷◌, false, true, replicate, none, some, arith, bit_and, get_elem?,
}
use photo_transfer_nativesmb.Wire.{Iovec, get_le}
use photo_transfer_nativesmb.Smb2.{Pdu, Context}
use photo_transfer_nativesmb.Smb2.Command
use photo_transfer_nativesmb.Pdu.FixedSize.{get_fixed_reply_size, get_fixed_request_size}
use photo_transfer_nativesmb.Commands.Fields.{body, Limits}
use photo_transfer_nativesmb.Commands.Lookup.{cut}
use photo_transfer_nativesmb.Commands.OplockBreak.{
  LeaseBreak, lease_break_ack_fields, lease_acknowledge, process_oplock_break_request_fixed,
  process_oplock_break_request_variable,
}
use photo_transfer_nativesmb.Commands.Dispatch.{
  Reply, write_reply, Parsed, process_reply_payload_fixed, Request, read_request,
  process_request_payload_fixed,
}
use photo_transfer_nativesmb.Commands.Answers.{
  write, make, IsAwaited, process_reply_payload_fixed-make,
}
use photo_transfer_nativesmb.Commands.Read.{
  ReadRequest, limit_read, read_request_fields, cmd_read_async, process_read_fixed,
}
use photo_transfer_nativesmb.Commands.Questions.{parsed_read}
use photo_transfer_nativesmb.Commands.Asked.{read, ask, IsAskable}
use photo_transfer_nativesmb.Commands.Understood.{process_request_payload_fixed-ask}
use photo_transfer_nativesmb.Commands.LeaseBreaks.{behind_size, lease_break_ack_lost}

abbrev server : Context
server = record {
  is_server = false;
  dialect = 0x0302;
  credits = 10;
  seal = false;
  sign = false;
  timeout = 0;
  message_id = 5;
  session_id = 77;
  async_id = 6;
  tree_ids = 0xdeadbeef ∷ 5 ∷ replicate 30 0;
  tree_id_top = 1;
  tree_id_cur = 1;
}

abbrev written : WriteReply
written = record { count = 1000; remaining = 24 }

abbrev reply : Pdu
reply = record {
  ref = 3;
  header = new_header server Command.write;
  prev_compound_mid = 0;
  out = record {
    num_done = 0;
    total_size = 88;
    iov =
        record { buf = replicate 64 0; len = 64 }
        ∷ body 17 (write_reply_fields written)
        ∷ record { buf = replicate 7 0; len = 7 }
        ∷ [];
  };
  seal = false;
  crypt = [];
  timeout = 0;
}

reply_made : make server 3 0 (write written) ≡ some reply
unfolding cmd_write_reply_async allocate_pdu add_iovector pad_to_64bit sum_len
reply_made = refl

reply-IsAwaited : IsAwaited (write written) (new_header server Command.write) reply
unfolding new_header is_error_response
reply-IsAwaited = ground arith

abbrev nothing : ℕ → Iovec → Parsed Reply
nothing command iov = none

process_reply_payload_fixed-make_example :
    (size : ℕ) × (io : Iovec) × (get_fixed_reply_size (new_header server Command.write) reply
      ≡ some size)
    × (get_elem? reply.out.iov 1 ≡ some io)
    × ((process_reply_payload_fixed nothing server
          (new_header server Command.write)
          reply
          (cut (bit_and size 0xfffe) io)).0
        ≡ some (write_reply written, 0))
process_reply_payload_fixed-make_example =
    process_reply_payload_fixed-make nothing server server 3 0 (write written)
      (new_header server Command.write) reply reply (omega arith) reply-IsAwaited reply_made

abbrev broken : LeaseBreak
broken = record { flags = 1; lease_key = replicate 16 9; lease_state = 7; lease_duration = 2 }

lease_break_ack_lost_example :
    let io = body 36 (lease_break_ack_fields broken) in
    (process_oplock_break_request_fixed (cut 2 io) ≡ some (36, 34))
    × (process_oplock_break_request_variable 36 (behind_size 34 io)
        ≡ some (
            lease_acknowledge (record {
              flags = 2;
              lease_key = replicate 16 9;
              lease_state = 0;
              lease_duration = 0;
            })))
lease_break_ack_lost_example = lease_break_ack_lost broken (omega arith)

abbrev small_limits : Limits
small_limits = record { supports_multi_credit = false; passthrough = false; max_read_size = 65536 }

-- More than a server that takes no large reads is asked for.
abbrev reading : ReadRequest
reading = record {
  flags = 0;
  length = 100000;
  offset = 4096;
  has_buf = true;
  file_id = replicate 16 7;
  minimum_count = 12;
  channel = 0;
  remaining_bytes = 0;
  read_channel_info_offset = 0;
  read_channel_info_length = 0;
  read_channel_info = none;
}

abbrev limited : ReadRequest
limited = record reading { length = 65536; minimum_count = 0 }

abbrev read_pdu : Pdu
read_pdu = record {
  ref = 3;
  header = new_header server Command.read;
  prev_compound_mid = 0;
  out = record {
    num_done = 0;
    total_size = 120;
    iov =
        record { buf = replicate 64 0; len = 64 }
        ∷ body 48 (read_request_fields limited)
        ∷ record { buf = 0 ∷ []; len = 1 }
        ∷ record { buf = replicate 7 0; len = 7 }
        ∷ [];
  };
  seal = false;
  crypt = [];
  timeout = 0;
}

read_made : ask server 3 0 (read small_limits reading) ≡ some read_pdu
unfolding cmd_read_async allocate_pdu add_iovector pad_to_64bit sum_len
read_made = refl

reading-IsAskable : IsAskable small_limits (read small_limits reading)
unfolding limit_read
reading-IsAskable = record {
  flags = omega arith;
  length = omega arith;
  offset = omega arith;
  file_id = refl;
  minimum_count = omega arith;
  channel = omega arith;
  remaining_bytes = omega arith;
  no_info = refl;
  allowed = omega arith;
}

read_asked : read_pdu.header.command ≡ Command.read
unfolding new_header
read_asked = refl

abbrev no_parser : ℕ → Iovec → Parsed Request
no_parser command iov = none

process_request_payload_fixed-ask_example :
    (size : ℕ) × (io : Iovec) × (get_fixed_request_size read_pdu ≡ some size)
    × (get_elem? read_pdu.out.iov 1 ≡ some io)
    × (process_request_payload_fixed no_parser small_limits 0 read_pdu
          (cut (bit_and size 0xfffe) io)
        ≡ some (read_request (parsed_read limited), 0))
unfolding limit_read
process_request_payload_fixed-ask_example =
    process_request_payload_fixed-ask no_parser small_limits 0 server 3 0
      (read small_limits reading) read_pdu read_pdu reading-IsAskable read_asked read_made

-- A length of 2^31 is returned as a negative `int`.
long_read :
    process_read_fixed
      (record { buf = 17 ∷ 0 ∷ 80 ∷ 0 ∷ 0 ∷ 0 ∷ 0 ∷ 0x80 ∷ replicate 8 0; len = 16 })
    ≡ none
unfolding process_read_fixed get_le
long_read = refl
