-- ===== src/Commands/Asked.antt =====
-- Requests that a client makes, and where their bodies stand.
use photo_transfer_nativesmb.Common.{
  ℕ, ◌≡◌, refl, ap, ◌∙◌, [], ◌∷◌, Option, none, some, arith, true, Bool, not, get_elem?,
  if◌then◌else◌, ◌==◌, ◌&&◌,
}
use photo_transfer_nativesmb.Wire.{Iovec}
use photo_transfer_nativesmb.Wire.Vectors.{IoVectors, add_iovector}
use photo_transfer_nativesmb.Smb2.{Pdu, Context}
use photo_transfer_nativesmb.Smb2.Command
use photo_transfer_nativesmb.Commands.Fields.{
  uint, body, Limits, add_copy, with_charge, command_pdu,
}
use photo_transfer_nativesmb.Commands.Vectors.{
  Adds, add_body-Adds, tail-Adds, add_iovector-Adds, any-Adds, command_pdu-body, add_iovector-body,
}
use photo_transfer_nativesmb.Commands.Close.{
  CloseRequest, close_request_fields, encode_close_request, cmd_close_async,
}
use photo_transfer_nativesmb.Commands.Echo.{encode_echo_request, cmd_echo_async}
use photo_transfer_nativesmb.Commands.Logoff.{encode_logoff_request, cmd_logoff_async}
use photo_transfer_nativesmb.Commands.Flush.{
  FlushRequest, flush_request_fields, encode_flush_request, cmd_flush_async,
}
use photo_transfer_nativesmb.Commands.TreeConnect.{
  TreeConnectRequest, tree_connect_request_fields, encode_tree_connect_request,
  cmd_tree_connect_async,
}
use photo_transfer_nativesmb.Commands.Read.{
  ReadRequest, limit_read, read_request_fields, encode_read_request, cmd_read_async,
}
use photo_transfer_nativesmb.Commands.Write.{
  WriteRequest, limit_write, write_request_fields, encode_write_request, cmd_write_async,
}
use photo_transfer_nativesmb.Commands.ChangeNotify.{
  ChangeNotifyRequest, change_notify_request_fields, encode_change_notify_request,
  cmd_change_notify_async,
}
use photo_transfer_nativesmb.Commands.Questions.{
  IsFileId, IsCloseRequest, IsTreeConnectRequest, IsReadRequest, IsWriteRequest,
  IsChangeNotifyRequest,
}

-- What a client asks, and with what limits of its own.
pub data Question : Type 0 where
  echo logoff : Question
  close : CloseRequest → Question
  flush : FlushRequest → Question
  tree_connect : TreeConnectRequest → Question
  read : Limits → ReadRequest → Question
  write : Limits → WriteRequest → Question
  change_notify : ChangeNotifyRequest → Question

abbrev pub ask : Context → ℕ → ℕ → Question → Option Pdu
ask c ref now echo = cmd_echo_async c ref now
ask c ref now logoff = cmd_logoff_async c ref now
ask c ref now (close req) = cmd_close_async c ref now req
ask c ref now (flush req) = cmd_flush_async c ref now req
ask c ref now (tree_connect req) = cmd_tree_connect_async c ref now req
ask c ref now (read limits req) = cmd_read_async limits c ref now req
ask c ref now (write limits req) = cmd_write_async limits c ref now req
ask c ref now (change_notify req) = cmd_change_notify_async c ref now req

abbrev pub command_asked : Question → ℕ
command_asked echo = Command.echo
command_asked logoff = Command.logoff
command_asked (close _) = Command.close
command_asked (flush _) = Command.flush
command_asked (tree_connect _) = Command.tree_connect
command_asked (read _ _) = Command.read
command_asked (write _ _) = Command.write
command_asked (change_notify _) = Command.change_notify

-- Every field fits its width, and a read what the server allows.
abbrev pub IsAskable : Limits → Question → Type 0
IsAskable server echo = Unit {0}
IsAskable server logoff = Unit {0}
IsAskable server (close req) = IsCloseRequest req
IsAskable server (flush req) = IsFileId req.file_id
IsAskable server (tree_connect req) = IsTreeConnectRequest req
IsAskable server (read limits req) = IsReadRequest server (limit_read limits req)
IsAskable server (write limits req) = IsWriteRequest (limit_write limits req)
IsAskable server (change_notify req) = IsChangeNotifyRequest req

-- The body, and the bytes of it that the server waits for.
abbrev pub body_asked : Question → Iovec
body_asked echo = body 4 (uint 2 0 4 ∷ [])
body_asked logoff = body 4 (uint 2 0 4 ∷ [])
body_asked (close req) = body 24 (close_request_fields req)
body_asked (flush req) = body 24 (flush_request_fields req)
body_asked (tree_connect req) = body 8 (tree_connect_request_fields req)
body_asked (read limits req) = body 48 (read_request_fields (limit_read limits req))
body_asked (write limits req) = body 48 (write_request_fields (limit_write limits req))
body_asked (change_notify req) = body 32 (change_notify_request_fields req)

connect_tail :
    (req : TreeConnectRequest)
    → Adds (body 8 (tree_connect_request_fields req) ∷ []) (encode_tree_connect_request req)
unfolding encode_tree_connect_request add_copy
connect_tail req =
    tail-Adds 8 (tree_connect_request_fields req) (add_copy req.path_length req.path)
      (any-Adds _ _ (add_iovector-Adds _))

read_tail :
    (limits : Limits) (req : ReadRequest)
    → req.read_channel_info_length ≡ 0
    → Adds (body 48 (read_request_fields req) ∷ []) (encode_read_request limits req)
unfolding encode_read_request
read_tail limits req h =
    let e : (req.read_channel_info_length == 0) ≡ true = ground (arith, h) in
    rw e (tail-Adds 48 (read_request_fields req) _ (any-Adds _ _ (add_iovector-Adds _)))

write_tail :
    (limits : Limits) (req : WriteRequest)
    → req.write_channel_info_length ≡ 0
    → Adds (body 48 (write_request_fields req) ∷ []) (encode_write_request limits req)
unfolding encode_write_request
write_tail limits req h =
    let e : (req.write_channel_info_length == 0) ≡ true = ground (arith, h) in
    rw e (add_body-Adds 48 (write_request_fields req))

with_charge-out : (limits : Limits) (n : ℕ) (p : Pdu) → (with_charge limits n p).out ≡ p.out
unfolding with_charge
with_charge-out limits n p = ground arith

-- The charge leaves a body where it is.
charged :
    (limits : Limits) (n : ℕ) (p q : Pdu) (io : Iovec)
    → get_elem? p.out.iov 1 ≡ some io
    → some (with_charge limits n p) ≡ some q
    → get_elem? q.out.iov 1 ≡ some io
charged limits n p q io h e =
    let same : q.out ≡ p.out = ground (arith, e, with_charge-out limits n p) in
    ap (λ (out : IoVectors). get_elem? out.iov 1) same ∙ h

unless_refused :
    (b : Bool) (o : Option Pdu) (p : Pdu) → (if b then none else o) ≡ some p → o ≡ some p
unless_refused b o p e = ground (arith, e)

read_asked :
    (limits : Limits) (req : ReadRequest) (c : Context) (ref now : ℕ) (p : Pdu)
    → (limit_read limits req).read_channel_info_length ≡ 0
    → cmd_read_async limits c ref now req ≡ some p
    → get_elem? p.out.iov 1 ≡ some (body 48 (read_request_fields (limit_read limits req)))
unfolding cmd_read_async
read_asked limits req c ref now p h e =
    let req' = limit_read limits req in
    after (command_pdu c ref now Command.read (encode_read_request limits req')) refl
      (unless_refused (not (req'.length == 0) && not req'.has_buf) _ p e)
  where
    after :
        (o : Option Pdu)
        → command_pdu c ref now Command.read (encode_read_request limits (limit_read limits req))
          ≡ o
        → (elim o [
          | none ↦ none
          | some q ↦ some (with_charge limits (limit_read limits req).length q)
        ])
          ≡ some p
        → get_elem? p.out.iov 1 ≡ some (body 48 (read_request_fields (limit_read limits req)))
    after none eo e = cc
    after (some q) eo e =
        charged limits (limit_read limits req).length q p _
          (command_pdu-body c ref now Command.read _ _ q
            (read_tail limits (limit_read limits req) h) eo)
          e

write_asked :
    (limits : Limits) (req : WriteRequest) (c : Context) (ref now : ℕ) (p : Pdu)
    → (limit_write limits req).write_channel_info_length ≡ 0
    → cmd_write_async limits c ref now req ≡ some p
    → get_elem? p.out.iov 1 ≡ some (body 48 (write_request_fields (limit_write limits req)))
unfolding cmd_write_async
write_asked limits req c ref now p h e =
    after
      (command_pdu c ref now Command.write (encode_write_request limits (limit_write limits req)))
      refl e
  where
    data_vector : Iovec
    data_vector = record {
      buf = (limit_write limits req).buf;
      len = (limit_write limits req).length;
    }

    added :
        (q : Pdu) (o : Option IoVectors)
        → get_elem? q.out.iov 1 ≡ some (body 48 (write_request_fields (limit_write limits req)))
        → add_iovector q.out data_vector ≡ o
        → (elim o [
          | none ↦ none
          | some out ↦
              some (with_charge limits (limit_write limits req).length (record q { out = out }))
        ])
          ≡ some p
        → get_elem? p.out.iov 1 ≡ some (body 48 (write_request_fields (limit_write limits req)))
    added q none hq eo e = cc
    added q (some out) hq eo e =
        charged limits (limit_write limits req).length (record q { out = out }) p _
          (add_iovector-body q.out out _ data_vector hq eo) e

    after :
        (o : Option Pdu)
        → command_pdu c ref now Command.write (encode_write_request limits (limit_write limits req))
          ≡ o
        → (elim o [
          | none ↦ none
          | some q ↦ elim (add_iovector q.out data_vector) [
            | none ↦ none
            | some out ↦
                some (with_charge limits (limit_write limits req).length (record q { out = out }))
          ]
        ])
          ≡ some p
        → get_elem? p.out.iov 1 ≡ some (body 48 (write_request_fields (limit_write limits req)))
    after none eo e = cc
    after (some q) eo e =
        added q (add_iovector q.out data_vector)
          (command_pdu-body c ref now Command.write _ _ q
            (write_tail limits (limit_write limits req) h) eo)
          refl e

pub asked :
    (server : Limits) (q : Question) (c : Context) (ref now : ℕ) (p : Pdu)
    → IsAskable server q
    → ask c ref now q ≡ some p
    → get_elem? p.out.iov 1 ≡ some (body_asked q)
unfolding cmd_echo_async cmd_logoff_async cmd_flush_async cmd_close_async cmd_tree_connect_async
    cmd_change_notify_async encode_echo_request encode_logoff_request encode_flush_request
    encode_close_request encode_change_notify_request
asked server echo c ref now p w e =
    command_pdu-body c ref now Command.echo _ _ p (add_body-Adds 4 (uint 2 0 4 ∷ [])) e
asked server logoff c ref now p w e =
    command_pdu-body c ref now Command.logoff _ _ p (add_body-Adds 4 (uint 2 0 4 ∷ [])) e
asked server (close req) c ref now p w e =
    command_pdu-body c ref now Command.close _ _ p (add_body-Adds 24 (close_request_fields req)) e
asked server (flush req) c ref now p w e =
    command_pdu-body c ref now Command.flush _ _ p (add_body-Adds 24 (flush_request_fields req)) e
asked server (tree_connect req) c ref now p w e =
    command_pdu-body c ref now Command.tree_connect _ _ p (connect_tail req) e
asked server (read limits req) c ref now p w e = read_asked limits req c ref now p (w.no_info) e
asked server (write limits req) c ref now p w e = write_asked limits req c ref now p (w.no_info) e
asked server (change_notify req) c ref now p w e =
    command_pdu-body c ref now Command.change_notify _ _ p
      (add_body-Adds 32 (change_notify_request_fields req)) e
