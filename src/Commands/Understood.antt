-- ===== src/Commands/Understood.antt =====
-- A request that a client makes is read back by a server, from the bytes that it waits for.
use photo_transfer_nativesmb.Common.{ℕ, ◌≡◌, refl, ap, ◌∙◌, some, bit_and, get_elem?}
use photo_transfer_nativesmb.Wire.{Iovec}
use photo_transfer_nativesmb.Smb2.{Pdu, Context}
use photo_transfer_nativesmb.Pdu.FixedSize.{get_fixed_request_size, size_of, request_sizes}
use photo_transfer_nativesmb.Commands.Fields.{Limits}
use photo_transfer_nativesmb.Commands.Lookup.{cut, empty_sized}
use photo_transfer_nativesmb.Commands.Echo.{process_echo_request_fixed}
use photo_transfer_nativesmb.Commands.Logoff.{process_logoff_request_fixed}
use photo_transfer_nativesmb.Commands.Read.{limit_read}
use photo_transfer_nativesmb.Commands.Write.{limit_write}
use photo_transfer_nativesmb.Commands.Dispatch.{
  Request, no_request, close_request, flush_request, tree_connect_request, read_request,
  write_request, change_notify_request, Parsed, whole, begun, switch, process_request_payload_fixed,
}
use photo_transfer_nativesmb.Commands.Questions.{
  parsed_connect, parsed_read, parsed_write, parsed_change, close_read, flush_read,
  tree_connect_read, read_read, write_read, change_read,
}
use photo_transfer_nativesmb.Commands.Asked.{
  Question, echo, logoff, close, flush, tree_connect, read, write, change_notify, ask,
  command_asked, IsAskable, body_asked, asked,
}

-- The payload of the fixed part, and the length of what follows it.
abbrev pub understood : ℕ → Question → Request × ℕ
understood junk echo = (no_request, 0)
understood junk logoff = (no_request, 0)
understood junk (close req) = (close_request req, 0)
understood junk (flush req) = (flush_request req, 0)
understood junk (tree_connect req) = (tree_connect_request (parsed_connect req), req.path_length)
understood junk (read limits req) = (read_request (parsed_read (limit_read limits req)), 0)
understood junk (write limits req) =
    let req' = limit_write limits req in (write_request (parsed_write req'), req'.length)
understood junk (change_notify req) = (change_notify_request (parsed_change junk req), 0)

abbrev size_asked : Question → ℕ
size_asked echo = 4
size_asked logoff = 4
size_asked (close _) = 24
size_asked (flush _) = 24
size_asked (tree_connect _) = 9
size_asked (read _ _) = 49
size_asked (write _ _) = 49
size_asked (change_notify _) = 32

sized : (q : Question) → size_of request_sizes (command_asked q) ≡ some (size_asked q)
unfolding size_of
sized echo = refl
sized logoff = refl
sized (close _) = refl
sized (flush _) = refl
sized (tree_connect _) = refl
sized (read _ _) = refl
sized (write _ _) = refl
sized (change_notify _) = refl

-- What the tables of the server make of a body, by the command.
module _ (other : ℕ → Iovec → Parsed Request) (server : Limits) (junk : ℕ) (pdu : Pdu) where
  parsed :
      (q : Question)
      → IsAskable server q
      → pdu.header.command ≡ command_asked q
      → process_request_payload_fixed other server junk pdu
          (cut (bit_and (size_asked q) 0xfffe) (body_asked q))
        ≡ some (understood junk q)
  unfolding process_request_payload_fixed switch process_echo_request_fixed
      process_logoff_request_fixed
  parsed echo w e = rw (e, empty_sized) refl
  parsed logoff w e = rw (e, empty_sized) refl
  parsed (close req) w e = rw e (ap (whole close_request) (close_read req w))
  parsed (flush req) w e = rw e (ap (whole flush_request) (flush_read req w))
  parsed (tree_connect req) w e = rw e (ap (begun tree_connect_request) (tree_connect_read req w))
  parsed (read limits req) w e =
      rw e (ap (begun read_request) (read_read server (limit_read limits req) w))
  parsed (write limits req) w e =
      rw e (ap (begun write_request) (write_read (limit_write limits req) w))
  parsed (change_notify req) w e = rw e (ap (whole change_notify_request) (change_read junk req w))

size_at :
    (pdu : Pdu) (q : Question)
    → pdu.header.command ≡ command_asked q
    → get_fixed_request_size pdu ≡ some (size_asked q)
unfolding get_fixed_request_size
size_at pdu q e = ap (λ (k : ℕ). size_of request_sizes k) e ∙ sized q

-- A request to echo, log off, close, flush, connect a tree, read, write or be notified that a client
-- makes from fields that fit their widths, with no channel information, no more to read than the
-- server allows and less than 2^31 bytes to write, has its body right behind the header. From the bytes of it that
-- `smb2_get_fixed_request_size` tells the server to wait for, `smb2_process_request_payload_fixed`
-- gets the same fields, as the limits of the client have left them, and the length of what follows.
-- The offsets of what follows are those that the encoder set. Only the length of the output of a
-- change notify is not read back.
pub process_request_payload_fixed-ask :
    (other : ℕ → Iovec → Parsed Request) (server : Limits) (junk : ℕ) (client : Context)
    (ref now : ℕ) (q : Question) (pdu p : Pdu)
    → IsAskable server q
    → pdu.header.command ≡ command_asked q
    → ask client ref now q ≡ some p
    → (size : ℕ) × (io : Iovec) × (get_fixed_request_size pdu ≡ some size)
      × (get_elem? p.out.iov 1 ≡ some io)
      × (process_request_payload_fixed other server junk pdu (cut (bit_and size 0xfffe) io)
          ≡ some (understood junk q))
process_request_payload_fixed-ask other server junk client ref now q pdu p fit e made = (
  size_asked q,
  body_asked q,
  size_at pdu q e,
  asked server q client ref now p fit made,
  parsed other server junk pdu q fit e,
)
