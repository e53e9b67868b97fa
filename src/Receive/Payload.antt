-- ===== src/Receive/Payload.antt =====
-- Sources/CSMB/lib/socket.c: smb2_read_data in the states SMB2_RECV_FIXED and SMB2_RECV_VARIABLE,
-- and what it does with a PDU that is read to its end.
use photo_transfer_nativesmb.Common.{
  ℕ, zero, suc, ◌+◌, ◌-◌, ◌%◌, ◌^◌, List, [], ◌∷◌, ◌++◌, Bool, true, false, ◌&&◌, not, ltb, ◌==◌,
  length, if◌then◌else◌, Option, none, some, bit_and, replicate,
}
use photo_transfer_nativesmb.Wire.{Iovec, get_bytes}
use photo_transfer_nativesmb.Smb2.{Pdu, header_size}
use photo_transfer_nativesmb.Smb2.Command
use photo_transfer_nativesmb.Smb2.Flags
use photo_transfer_nativesmb.Smb2.NtStatus
use photo_transfer_nativesmb.Header.{same_bytes}
use photo_transfer_nativesmb.Pdu.Queues.{find_pdu, list_add_end, free_pdu}
use photo_transfer_nativesmb.Signing.{calc_signature}
use photo_transfer_nativesmb.Socket.{spl_size, at_most}
use photo_transfer_nativesmb.Receive.State.{
  RecvState, at_header, at_heap, Receiver, add_vector, add_buffer, is_negative, iovecs,
}
use photo_transfer_nativesmb.Receive.Heading.{Result, Outcome, more, returns, Environment, wait_for}

-- The loop over the application's vectors, and the length that is left; `none` for want of room.
unfoldable pub add_app_vectors : Receiver → List ℕ → ℕ → Option (Receiver × ℕ)
unfolding add_vector
add_app_vectors r [] len = some (r, len)
add_app_vectors r (size ∷ sizes) len =
    let num = at_most size len in
    elim (add_vector r (at_heap (replicate size 0)) num) [
      | none ↦ none
      | some r' ↦
          let rest = add_app_vectors r' sizes (len - num) in
          if len == num then some (r', 0) else rest
    ]

-- Padding up to the next header of a chain, or to the end of the frame, as an `int`.
unfoldable pub pad_len : Receiver → ℕ
pad_len r =
    let len = ((r.spl + spl_size) % 2 ^ 32 + 2 ^ 64 - r.num_done) % 2 ^ 32 in
    if not (r.hdr.next_command == 0)
    then (r.hdr.next_command + r.payload_offset + 2 ^ 65 - (header_size + r.num_done)) % 2 ^ 32
    else (if r.is_enc then (len + 2 ^ 32 - spl_size) % 2 ^ 32 else len)

-- The receive policy of a client, before a reply is delivered: a session that seals takes no bare
-- reply, and one that signs takes no reply without the flag.
unfoldable pub violates_policy : Bool → Receiver → Bool
violates_policy has_xfrmhdr r =
    not r.context.is_server
    && not has_xfrmhdr
    && not (r.hdr.command == Command.negotiate)
    && not (r.hdr.command == Command.session_setup)
    && (if r.context.seal
        then true
        else r.context.sign
          && not (r.hdr.status == NtStatus.pending)
          && bit_and r.hdr.flags Flags.signed == 0)

unfoldable pub drop_vectors : ℕ → List Iovec → List Iovec
drop_vectors zero ios = ios
drop_vectors (suc n) [] = []
drop_vectors (suc n) (io ∷ ios) = drop_vectors n ios

-- The vectors over which a signature is computed: those behind the length field and the PDUs before.
unfoldable pub message : Receiver → List Iovec
unfolding drop_vectors iovecs
message r = drop_vectors (1 + r.iov_offset) (iovecs r r.iov)

-- `none` where the first vector does not have the 64 bytes of a header. The header's bytes then hold
-- the computed signature, which is the received one unless the PDU is refused.
unfoldable pub verify_signature : Environment → Receiver → List Iovec → Option Bool
unfolding same_bytes calc_signature get_bytes
verify_signature env r [] = none
verify_signature env r (first ∷ ios) =
    let (signature, cleared) = calc_signature env.ecb env.hmac r.context r.keys (first ∷ ios) in
    if ltb (length first.buf) header_size
    then none
    else some (same_bytes (get_bytes 16 first.buf 48) signature)

abbrev pub must_verify : Receiver → Bool
must_verify r =
    r.context.sign
    && not (bit_and r.hdr.flags Flags.signed == 0)
    && not (r.hdr.command == Command.session_setup)

-- A call of the callback of `pdu`.
unfoldable pub deliver : Environment → Bool → Receiver → Pdu → Receiver
unfolding message
deliver env has_xfrmhdr r pdu =
    let e = env.call_back r pdu in
    record r {
      context = e.context;
      keys = e.keys;
      queues = e.queues;
      next_pdu = e.next_pdu;
      log =
          r.log
          ++ (record {
            context = r.context;
            keys = r.keys;
            hdr = r.hdr;
            is_sealed = has_xfrmhdr;
            message = message r;
          }
              ∷ []);
    }

-- A PDU with no more to read is delivered; a chain goes on with the next header.
unfoldable pub complete : Environment → Bool → Receiver → Pdu → Outcome
unfolding deliver list_add_end free_pdu wait_for add_vector
complete env has_xfrmhdr r pdu =
    let queued = record r.queues { waitqueue = list_add_end r.queues.waitqueue pdu } in
    let served = deliver env has_xfrmhdr (record r { queues = queued }) pdu in
    let called = deliver env has_xfrmhdr r pdu in
    let freed = free_pdu called.queues (pdu ∷ []) in
    let r' =
      if r.context.is_server
      then record served { current = served.next_pdu; next_pdu = none }
      else record called {
        current = none;
        queues = if env.caller_frees_pdu pdu then called.queues else freed;
      } in
    let chained = record r' { iov_offset = length r.iov - 1 } in
    if not (r.hdr.next_command == 0)
    then wait_for RecvState.header (add_vector chained at_header header_size) chained
    else returns Result.done (record r' { num_done = 0 })

-- The PDU is `smb2->pdu`, and the first argument whether its signature is right.
unfoldable pub complete_verified :
    Option Bool → Option Pdu → Environment → Bool → Receiver → Outcome
unfolding complete
complete_verified none current env has_xfrmhdr r = returns Result.fault r
complete_verified (some false) current env has_xfrmhdr r = returns Result.failed r
complete_verified (some true) none env has_xfrmhdr r = returns Result.fault r
complete_verified (some true) (some pdu) env has_xfrmhdr r = complete env has_xfrmhdr r pdu

-- A pending reply is dropped, or passed on if everything is.
unfoldable pub drop_pending : Environment → Bool → Receiver → Outcome
unfolding find_pdu deliver
drop_pending env has_xfrmhdr r =
    let found = if r.passthrough then find_pdu r.queues.waitqueue r.hdr.message_id else none in
    elim found [
      | none ↦ returns Result.done (record r { num_done = 0 })
      | some pdu ↦ returns Result.done (record (deliver env has_xfrmhdr r pdu) { num_done = 0 })
    ]

unfoldable pub finish : Environment → Bool → Receiver → Outcome
unfolding violates_policy drop_pending verify_signature message complete_verified
finish env has_xfrmhdr r =
    let verified = if must_verify r then verify_signature env r (message r) else some true in
    if ltb (length r.iov) 2
    then returns Result.failed r
    else (if violates_policy has_xfrmhdr r
        then returns Result.failed r
        else (if r.hdr.status == NtStatus.pending
            then drop_pending env has_xfrmhdr r
            else complete_verified verified r.current env has_xfrmhdr r))

-- Behind the body there may be padding.
unfoldable pub take_padding : Environment → Bool → Receiver → Outcome
unfolding wait_for add_buffer pad_len finish
take_padding env has_xfrmhdr r =
    let len = pad_len r in
    if is_negative len
    then returns Result.failed r
    else (if len == 0
        then finish env has_xfrmhdr r
        else wait_for RecvState.pad (add_buffer r len) r)

-- The part of the body whose length its fixed part tells.
unfoldable pub wait_for_variable : Receiver → Option (Receiver × ℕ) → Outcome
unfolding wait_for add_buffer
wait_for_variable r none = returns Result.failed r
wait_for_variable r (some (r', len)) =
    if len == 0
    then more (record r' { recv_state = RecvState.variable })
    else wait_for RecvState.variable (add_buffer r' len) r'

-- `smb2->pdu` is there in these states.
unfoldable pub with_current : Option Pdu → (Pdu → Outcome) → Receiver → Outcome
with_current none k r = returns Result.fault r
with_current (some pdu) k r = k pdu

unfoldable pub parse_fixed : Environment → Bool → Receiver → Pdu → Outcome
unfolding add_app_vectors wait_for_variable take_padding
parse_fixed env has_xfrmhdr r pdu =
    let (parsed, c) = env.process_fixed r pdu in
    let r' = record r { context = c } in
    elim parsed [
      | none ↦ returns Result.failed r'
      | some len ↦
          if len == 0
          then take_padding env has_xfrmhdr r'
          else wait_for_variable r' (add_app_vectors r' (env.app_vectors pdu) len)
    ]

unfoldable pub take_fixed : Environment → Bool → Receiver → Outcome
unfolding with_current parse_fixed
take_fixed env has_xfrmhdr r = with_current r.current (parse_fixed env has_xfrmhdr r) r

unfoldable pub parse_variable : Environment → Bool → Receiver → Pdu → Outcome
unfolding take_padding
parse_variable env has_xfrmhdr r pdu =
    let (parsed, c) = env.process_variable r pdu in
    let r' = record r { context = c } in
    elim parsed [ none ↦ returns Result.failed r' | some _ ↦ take_padding env has_xfrmhdr r' ]

unfoldable pub take_variable : Environment → Bool → Receiver → Outcome
unfolding with_current parse_variable
take_variable env has_xfrmhdr r = with_current r.current (parse_variable env has_xfrmhdr r) r
