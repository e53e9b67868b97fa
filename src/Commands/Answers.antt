-- ===== src/Commands/Answers.antt =====
-- A reply that a server makes is read back by a client, from the bytes that it waits for.
use photo_transfer_nativesmb.Common.{
  ℕ, ◌+◌, ◌≡◌, refl, ap, ◌∙◌, List, [], ◌∷◌, Option, none, some, arith, true, false, Bool, bit_and,
  get_elem?, if◌then◌else◌, ◌==◌, ◌&&◌, ◌-◌, ◌++◌, replicate, Bool_cases, inl, inr,
}
use photo_transfer_nativesmb.Wire.{Iovec, get_bytes}
use photo_transfer_nativesmb.Wire.Vectors.{add_iovector}
use photo_transfer_nativesmb.Smb2.{Header, Pdu, Context, with_tree_id}
use photo_transfer_nativesmb.Smb2.Command
use photo_transfer_nativesmb.Pdu.{is_error_response, allocate_pdu, new_header}
use photo_transfer_nativesmb.Trees.{connect_tree_id, current_tree_id}
use photo_transfer_nativesmb.Pdu.FixedSize.{get_fixed_reply_size, size_of, reply_sizes}
use photo_transfer_nativesmb.Commands.Fields.{
  pad_to_32, uint, body, Limits, add_body, no_more, refuse, ◌then◌,
}
use photo_transfer_nativesmb.Commands.Lookup.{cut, empty_sized}
use photo_transfer_nativesmb.Commands.Vectors.{
  Adds, add_body-Adds, tail-Adds, add_iovector-Adds, no_more-Adds, refuse-Adds, any-Adds,
  command_pdu-body, with_body-vectors,
}
use photo_transfer_nativesmb.Commands.Close.{
  CloseReply, close_reply_fields, encode_close_reply, cmd_close_reply_async,
}
use photo_transfer_nativesmb.Commands.Echo.{
  encode_echo_reply, process_echo_fixed, cmd_echo_reply_async,
}
use photo_transfer_nativesmb.Commands.Flush.{
  encode_flush_reply, process_flush_fixed, cmd_flush_reply_async,
}
use photo_transfer_nativesmb.Commands.Lock.{
  encode_lock_reply, process_lock_fixed, cmd_lock_reply_async,
}
use photo_transfer_nativesmb.Commands.TreeConnect.{
  TreeConnectReply, tree_connect_reply_fields, encode_tree_connect_reply,
  cmd_tree_connect_reply_async,
}
use photo_transfer_nativesmb.Commands.Read.{
  ReadReply, read_reply_fields, encode_read_reply, cmd_read_reply_async,
}
use photo_transfer_nativesmb.Commands.Write.{
  WriteReply, write_reply_fields, encode_write_reply, cmd_write_reply_async,
}
use photo_transfer_nativesmb.Commands.ChangeNotify.{
  ChangeNotifyReply, change_notify_reply_fields, encode_change_notify_reply, add_output,
  cmd_change_notify_reply_async,
}
use photo_transfer_nativesmb.Commands.Dispatch.{
  Reply, no_reply, close_reply, tree_connect_reply, read_reply, write_reply, change_notify_reply,
  Parsed, whole, begun, switch, parse_reply, process_reply_payload_fixed,
}
use photo_transfer_nativesmb.Commands.RoundTrips.{
  IsCloseReply, IsTreeConnectReply, IsReadReply, IsWriteReply, IsChangeNotifyReply, IsWhole,
  parsed_read, parsed_change, close_read, tree_connect_read, read_read, write_read, change_read,
}

-- What a server answers, and what it is made with.
pub data Answer : Type 0 where
  echo flush lock : Answer
  close : CloseReply → Answer
  tree_connect : ℕ → ℕ → TreeConnectReply → Answer
  read : ReadReply → Answer
  write : WriteReply → Answer
  change_notify : Limits → ChangeNotifyReply → Answer

abbrev pub make : Context → ℕ → ℕ → Answer → Option Pdu
make c ref now echo = cmd_echo_reply_async c ref now
make c ref now flush = cmd_flush_reply_async c ref now
make c ref now lock = cmd_lock_reply_async c ref now
make c ref now (close rep) = cmd_close_reply_async c ref now rep
make c ref now (tree_connect counter id rep) =
    (cmd_tree_connect_reply_async c ref now counter rep id).0
make c ref now (read rep) = cmd_read_reply_async c ref now rep
make c ref now (write rep) = cmd_write_reply_async c ref now rep
make c ref now (change_notify limits rep) = cmd_change_notify_reply_async limits c ref now rep

abbrev pub command_of : Answer → ℕ
command_of echo = Command.echo
command_of flush = Command.flush
command_of lock = Command.lock
command_of (close _) = Command.close
command_of (tree_connect _ _ _) = Command.tree_connect
command_of (read _) = Command.read
command_of (write _) = Command.write
command_of (change_notify _ _) = Command.change_notify

-- Every field fits its width, and what follows is there and is not too long.
abbrev pub IsFit : Answer → Type 0
IsFit echo = Unit {0}
IsFit flush = Unit {0}
IsFit lock = Unit {0}
IsFit (close rep) = IsCloseReply rep
IsFit (tree_connect _ _ rep) = IsTreeConnectReply rep
IsFit (read rep) = IsReadReply rep × IsWhole rep
IsFit (write rep) = IsWriteReply rep
IsFit (change_notify _ rep) = IsChangeNotifyReply rep

-- The payload of the fixed part, and the length of what follows it.
abbrev pub parsed_of : Answer → Reply × ℕ
parsed_of echo = (no_reply, 0)
parsed_of flush = (no_reply, 0)
parsed_of lock = (no_reply, 0)
parsed_of (close rep) = (close_reply rep, 0)
parsed_of (tree_connect _ _ rep) = (tree_connect_reply rep, 0)
parsed_of (read rep) = (read_reply (parsed_read rep), rep.data_length)
parsed_of (write rep) = (write_reply rep, 0)
parsed_of (change_notify _ rep) =
    (change_notify_reply (parsed_change rep), rep.output_buffer_length)

-- The body, and the bytes of it that the client waits for.
abbrev pub body_of : Answer → Iovec
body_of echo = body 4 (uint 2 0 4 ∷ [])
body_of flush = body 4 (uint 2 0 4 ∷ [])
body_of lock = body 4 (uint 2 0 4 ∷ [])
body_of (close rep) = body 60 (close_reply_fields rep)
body_of (tree_connect _ _ rep) = body 16 (tree_connect_reply_fields rep)
body_of (read rep) = body 16 (read_reply_fields rep)
body_of (write rep) = body 17 (write_reply_fields rep)
body_of (change_notify _ rep) = body 8 (change_notify_reply_fields rep)

abbrev size_of_answer : Answer → ℕ
size_of_answer (close _) = 60
size_of_answer (tree_connect _ _ _) = 16
size_of_answer (read _) = 17
size_of_answer (write _) = 17
size_of_answer (change_notify _ _) = 9
size_of_answer _ = 4

asked : (a : Answer) → size_of reply_sizes (command_of a) ≡ some (size_of_answer a)
unfolding size_of
asked echo = refl
asked flush = refl
asked lock = refl
asked (close _) = refl
asked (tree_connect _ _ _) = refl
asked (read _) = refl
asked (write _) = refl
asked (change_notify _ _) = refl

module _ (other : ℕ → Iovec → Parsed Reply) (c : Context) (hdr : Header) where
  parsed :
      (a : Answer)
      → IsFit a
      → (parse_reply other c hdr
          (command_of a)
          (cut (bit_and (size_of_answer a) 0xfffe) (body_of a))).0
        ≡ some (parsed_of a)
  unfolding parse_reply switch process_echo_fixed process_flush_fixed process_lock_fixed
  parsed echo w = rw empty_sized refl
  parsed flush w = rw empty_sized refl
  parsed lock w = rw empty_sized refl
  parsed (close rep) w = ap (whole close_reply) (close_read rep w)
  parsed (tree_connect _ _ rep) w = ap (whole tree_connect_reply) (tree_connect_read c hdr rep w)
  parsed (read rep) (w, d) = ap (begun read_reply) (read_read rep w d)
  parsed (write rep) w = ap (whole write_reply) (write_read rep w)
  parsed (change_notify _ rep) w = ap (begun change_notify_reply) (change_read rep w)

read_tail : (rep : ReadReply) → Adds (body 16 (read_reply_fields rep) ∷ []) (encode_read_reply rep)
unfolding encode_read_reply
read_tail rep = tail-Adds 16 (read_reply_fields rep) _ (behind rep.payload rep.data_length)
  where
    behind :
        (o : Option (List ℕ)) (n : ℕ)
        → Adds [] (elim o [
          | none ↦ no_more
          | some xs ↦
              if n == 0 then no_more else (λ out. add_iovector out (record { buf = xs; len = n }))
        ])
    behind none n = no_more-Adds
    behind (some xs) n = elim (Bool_cases (n == 0)) [
      | inl e ↦ rw e no_more-Adds
      | inr e ↦ rw e (
          any-Adds (record { buf = xs; len = n } ∷ []) _
            (add_iovector-Adds (record { buf = xs; len = n })))
    ]

add_output-Adds : (len : ℕ) (xs : List ℕ) → Adds [] (add_output len xs)
unfolding add_output add_iovector
add_output-Adds len xs out out' h =
    let io : Iovec = record {
      buf = get_bytes len xs 0 ++ replicate (pad_to_32 len - len) 0;
      len = len;
    } in
    record { rest = io ∷ []; vectors = ground (arith, h) }

change_tail :
    (limits : Limits) (rep : ChangeNotifyReply)
    → Adds (body 8 (change_notify_reply_fields rep) ∷ []) (encode_change_notify_reply limits rep)
unfolding encode_change_notify_reply
change_tail limits rep =
    tail-Adds 8 (change_notify_reply_fields rep) _
      (behind rep.output_buffer_length limits.passthrough)
  where
    behind :
        (n : ℕ) (b : Bool)
        → Adds [] (if n == 0 then no_more else (if b then add_output n rep.output else refuse))
    behind n b = elim (Bool_cases (n == 0)) [
      | inl e ↦ rw e no_more-Adds
      | inr e ↦
          rw e (elim b as (λ (b : Bool). Adds [] (if b then add_output n rep.output else refuse)) [
            | true ↦ add_output-Adds n rep.output
            | false ↦ refuse-Adds
          ])
    ]

connected :
    (counter id : ℕ) (rep : TreeConnectReply) (c : Context) (ref now : ℕ) (p : Pdu)
    → (cmd_tree_connect_reply_async c ref now counter rep id).0 ≡ some p
    → get_elem? p.out.iov 1 ≡ some (body 16 (tree_connect_reply_fields rep))
unfolding cmd_tree_connect_reply_async allocate_pdu add_iovector encode_tree_connect_reply
connected counter id rep c ref now p e =
    let c' = (connect_tree_id c (if id == 0 then counter else id)).1 in
    let p0 : Pdu = record {
      ref = ref;
      header = with_tree_id (new_header c Command.tree_connect) (current_tree_id c');
      prev_compound_mid = 0;
      out = record {
        num_done = 0;
        total_size = 64;
        iov = record { buf = replicate 64 0; len = 64 } ∷ [];
      };
      seal = c.seal && true;
      crypt = [];
      timeout = if c.timeout == 0 then 0 else now + c.timeout;
    } in
    let (rest, v) =
      with_body-vectors (body 16 (tree_connect_reply_fields rep))
        (add_body 16 (tree_connect_reply_fields rep))
        (add_body-Adds 16 (tree_connect_reply_fields rep)) p0 p e in
    ap (λ (q : List Iovec). get_elem? q 1) v

made :
    (a : Answer) (c : Context) (ref now : ℕ) (p : Pdu)
    → make c ref now a ≡ some p
    → get_elem? p.out.iov 1 ≡ some (body_of a)
unfolding cmd_echo_reply_async cmd_flush_reply_async cmd_lock_reply_async cmd_close_reply_async
    cmd_read_reply_async cmd_write_reply_async cmd_change_notify_reply_async encode_echo_reply
    encode_flush_reply encode_lock_reply encode_close_reply encode_write_reply
made echo c ref now p e =
    command_pdu-body c ref now Command.echo _ _ p (add_body-Adds 4 (uint 2 0 4 ∷ [])) e
made flush c ref now p e =
    command_pdu-body c ref now Command.flush _ _ p (add_body-Adds 4 (uint 2 0 4 ∷ [])) e
made lock c ref now p e =
    command_pdu-body c ref now Command.lock _ _ p (add_body-Adds 4 (uint 2 0 4 ∷ [])) e
made (close rep) c ref now p e =
    command_pdu-body c ref now Command.close _ _ p (add_body-Adds 60 (close_reply_fields rep)) e
made (tree_connect counter id rep) c ref now p e = connected counter id rep c ref now p e
made (read rep) c ref now p e = command_pdu-body c ref now Command.read _ _ p (read_tail rep) e
made (write rep) c ref now p e =
    command_pdu-body c ref now Command.write _ _ p (add_body-Adds 17 (write_reply_fields rep)) e
made (change_notify limits rep) c ref now p e =
    command_pdu-body c ref now Command.change_notify _ _ p (change_tail limits rep) e

-- The client's request of the same command waits for the reply, which is no error.
pub record IsAwaited (a : Answer) (hdr : Header) (pdu : Pdu) : Type 0 where
  pub command : pdu.header.command ≡ command_of a
  pub status : is_error_response hdr.status ≡ false

process_at :
    (other : ℕ → Iovec → Parsed Reply) (c : Context) (hdr : Header) (pdu : Pdu) (a : Answer)
    (io : Iovec)
    → IsAwaited a hdr pdu
    → process_reply_payload_fixed other c hdr pdu io ≡ parse_reply other c hdr (command_of a) io
unfolding process_reply_payload_fixed
process_at other c hdr pdu a io w =
    ground (arith, w.status) ∙ ap (λ (k : ℕ). parse_reply other c hdr k io) w.command

size_at :
    (hdr : Header) (pdu : Pdu) (a : Answer)
    → IsAwaited a hdr pdu
    → get_fixed_reply_size hdr pdu ≡ some (size_of_answer a)
unfolding get_fixed_reply_size
size_at hdr pdu a w =
    ground (arith, w.status) ∙ ap (λ (k : ℕ). size_of reply_sizes k) w.command ∙ asked a

-- A reply to an echo, flush, lock, close, tree connect, read, write or change notify that a server
-- makes from fields that fit their widths, with less than 2^31 bytes of data or output, and with the
-- data there if a read reply has a length, has its body right behind the header; from the bytes of it
-- that `smb2_get_fixed_reply_size` tells the client to wait for, `smb2_process_reply_payload_fixed`
-- gets the same fields and the length of what follows, if its request has that command and the
-- status is no error. The offsets of data are those that the encoder set.
pub process_reply_payload_fixed-make :
    (other : ℕ → Iovec → Parsed Reply) (server client : Context) (ref now : ℕ) (a : Answer)
    (hdr : Header) (pdu p : Pdu)
    → IsFit a
    → IsAwaited a hdr pdu
    → make server ref now a ≡ some p
    → (size : ℕ) × (io : Iovec) × (get_fixed_reply_size hdr pdu ≡ some size)
      × (get_elem? p.out.iov 1 ≡ some io)
      × ((process_reply_payload_fixed other client hdr pdu (cut (bit_and size 0xfffe) io)).0
          ≡ some (parsed_of a))
process_reply_payload_fixed-make other server client ref now a hdr pdu p fit waits e =
    let io = body_of a in
    (
      size_of_answer a,
      io,
      size_at hdr pdu a waits,
      made a server ref now p e,
      ap (λ (x : Parsed Reply × Context). x.0)
            (process_at other client hdr pdu a (cut (bit_and (size_of_answer a) 0xfffe) io) waits)
          ∙ parsed other client hdr a fit,
    )
