-- ===== src/Receive/Delivered.antt =====
-- What smb2_read_from_socket hands to the application, whatever the server sends.
use photo_transfer_nativesmb.Common.{
  ℕ, ◌%◌, ◌^◌, zero, suc, ◌-◌, ◌==◌, ◌≡◌, inl, inr, List, [], ◌∷◌, Bool, true, false, Option, none,
  some, All, arith, Bool_cases, length, replicate,
}
use photo_transfer_nativesmb.Smb2.{Pdu, header_size}
use photo_transfer_nativesmb.Wire.{Status, ok, fail, get_bytes}
use photo_transfer_nativesmb.Ccm.{ccm_decrypt}
use photo_transfer_nativesmb.Socket.{take, drop, at_most}
use photo_transfer_nativesmb.Receive.State.{
  Vector, at_header, RecvState, vector_bytes, Receiver, is_all_read, vectors_len, add_vector,
}
use photo_transfer_nativesmb.Receive.Heading.{
  Result, Outcome, more, opens, flushes, returns, Environment,
}
use photo_transfer_nativesmb.Receive.Payload.{deliver}
use photo_transfer_nativesmb.Receive.Loop.{
  Arrival, ready, empty, broken, Reading, stop, end_smb1, flush_smb1, conclude, round, read_data,
  decrypt_pdu, with_frame, if_opened, open_sealed, read_from_buf, last_two, next_frame,
  begin_opened, begin_frame, closed, read_frames, read_from_socket,
}
use photo_transfer_nativesmb.Receive.Kept.{receiver_of, is_unserved}
use photo_transfer_nativesmb.Receive.Served.{round_served}
use photo_transfer_nativesmb.Receive.Policy.{
  IsPermitted, IsPermittedLog, All-append, round-IsPermitted,
}

module _ (env : Environment) where
  end_smb1-IsPermitted :
      (current : Option Pdu) (x : Bool) (r : Receiver) (arrivals : List Arrival) (s : List ℕ)
      → r.context.is_server ≡ true
      → IsPermittedLog env r
      → IsPermittedLog env (end_smb1 current env x r arrivals s).receiver
  unfolding end_smb1 deliver
  end_smb1-IsPermitted none x r arrivals s server h = h
  end_smb1-IsPermitted (some pdu) x r arrivals s server h =
      All-append (IsPermitted env) r.log _ h (inl (ground (arith, server)))

  flush_smb1-IsPermitted :
      (x : Bool) (r : Receiver) (arrivals : List Arrival) (s : List ℕ)
      → r.context.is_server ≡ true
      → IsPermittedLog env r
      → IsPermittedLog env (flush_smb1 env x r arrivals s).receiver
  unfolding flush_smb1
  flush_smb1-IsPermitted x r [] s server h = end_smb1-IsPermitted r.current x r [] s server h
  flush_smb1-IsPermitted x r (empty ∷ arrivals) s server h =
      end_smb1-IsPermitted r.current x r arrivals s server h
  flush_smb1-IsPermitted x r (broken ∷ arrivals) s server h =
      end_smb1-IsPermitted r.current x r arrivals s server h
  flush_smb1-IsPermitted x r (ready n ∷ arrivals) s server h =
      let count = at_most n (at_most 32 (length s)) in
      elim (Bool_cases (count == 0)) [
        | inl e ↦ rw e (end_smb1-IsPermitted r.current x r arrivals s server h)
        | inr e ↦ rw e (flush_smb1-IsPermitted x r arrivals (drop count s) server h)
      ]

  conclude-IsPermitted :
      (o : Outcome) (go : Receiver → Reading) (decrypt : Receiver → Result × Receiver) (x : Bool)
      (arrivals : List Arrival) (s : List ℕ)
      → ((r : Receiver) → IsPermittedLog env r → IsPermittedLog env (go r).receiver)
      → ((r : Receiver) → IsPermittedLog env r → IsPermittedLog env (decrypt r).1)
      → is_unserved o ≡ false
      → IsPermittedLog env (receiver_of o)
      → IsPermittedLog env (conclude o go decrypt env x arrivals s).receiver
  unfolding conclude
  conclude-IsPermitted (more r) go decrypt x arrivals s hg hd served h = hg r h
  conclude-IsPermitted (opens r) go decrypt x arrivals s hg hd served h = hd r h
  conclude-IsPermitted (flushes r) go decrypt x arrivals s hg hd served h =
      flush_smb1-IsPermitted x r arrivals s (ground arith) h
  conclude-IsPermitted (returns result r) go decrypt x arrivals s hg hd served h = h

  read_data-IsPermitted :
      (x : Bool) (decrypt : Receiver → Result × Receiver) (r : Receiver) (arrivals : List Arrival)
      (s : List ℕ)
      → ((r : Receiver) → IsPermittedLog env r → IsPermittedLog env (decrypt r).1)
      → IsPermittedLog env r
      → IsPermittedLog env (read_data env x decrypt r arrivals s).receiver
  unfolding read_data
  read_data-IsPermitted x decrypt r [] s hd h = h
  read_data-IsPermitted x decrypt r (empty ∷ arrivals) s hd h =
      elim (Bool_cases (is_all_read r.num_done r.iov)) [ inl e ↦ rw e h | inr e ↦ rw e h ]
  read_data-IsPermitted x decrypt r (broken ∷ arrivals) s hd h =
      elim (Bool_cases (is_all_read r.num_done r.iov)) [ inl e ↦ rw e h | inr e ↦ rw e h ]
  read_data-IsPermitted x decrypt r (ready n ∷ arrivals) s hd h =
      let count = at_most n (at_most (vectors_len r.iov - r.num_done) (length s)) in
      elim (Bool_cases (is_all_read r.num_done r.iov)) [
        | inl e ↦ rw e h
        | inr e ↦ rw e (
            conclude-IsPermitted (round env x r (take count s))
              (λ (r' : Receiver). read_data env x decrypt r' arrivals (drop count s)) decrypt x
              arrivals (drop count s)
              (λ r' h'. read_data-IsPermitted x decrypt r' arrivals (drop count s) hd h') hd
              (round_served env x r (take count s)) (round-IsPermitted env x r (take count s) h))
      ]

  closed-IsPermitted :
      (result : Result) (r : Receiver)
      → IsPermittedLog env r
      → IsPermittedLog env (closed result r).1
  closed-IsPermitted Result.done r h = h
  closed-IsPermitted Result.fault r h = h
  closed-IsPermitted Result.again r h = h
  closed-IsPermitted Result.failed r h = h

  -- The receiver that reads the opened text has made the same callbacks.
  read_from_buf-IsPermitted :
      (decrypt : Receiver → Result × Receiver) (r : Receiver) (opened : List ℕ)
      → ((r : Receiver) → IsPermittedLog env r → IsPermittedLog env (decrypt r).1)
      → IsPermittedLog env r
      → IsPermittedLog env (read_from_buf env decrypt r opened).1
  unfolding read_from_buf begin_opened add_vector
  read_from_buf-IsPermitted decrypt r opened hd h =
      let r' : Receiver = record r {
        is_enc = true;
        iov = record { place = at_header; len = header_size } ∷ [];
        num_done = 0;
        total_size = 64;
        spl = length opened % 2 ^ 32;
        recv_state = RecvState.header;
        iov_offset = 0;
      } in
      let calls : List Arrival = replicate (suc (length opened)) (ready (length opened)) in
      let d = read_data env true decrypt r' calls opened in
      closed-IsPermitted d.result d.receiver
        (read_data-IsPermitted true decrypt r' calls opened hd h)

  if_opened-IsPermitted :
      (s : Status) (x y : Result × Receiver)
      → IsPermittedLog env x.1
      → IsPermittedLog env y.1
      → IsPermittedLog env (if_opened s x y).1
  if_opened-IsPermitted ok x y hx hy = hx
  if_opened-IsPermitted fail x y hx hy = hy

  open_sealed-IsPermitted :
      (vs : Option (Vector × Vector)) (decrypt : Receiver → Result × Receiver) (r : Receiver)
      → ((r : Receiver) → IsPermittedLog env r → IsPermittedLog env (decrypt r).1)
      → IsPermittedLog env r
      → IsPermittedLog env (open_sealed vs env decrypt r).1
  unfolding open_sealed
  open_sealed-IsPermitted none decrypt r hd h = h
  open_sealed-IsPermitted (some (v, w)) decrypt r hd h =
      let heading = vector_bytes r v in
      let x =
        ccm_decrypt env.ecb env.serverout_key (get_bytes 11 heading 20) (get_bytes 32 heading 20)
          (take w.len (vector_bytes r w)) (get_bytes 16 heading 4) in
      if_opened-IsPermitted x.0 _ (Result.failed, r) (read_from_buf-IsPermitted decrypt r x.1 hd h)
        h

  decrypt_pdu-IsPermitted :
      (fuel : ℕ) (r : Receiver)
      → IsPermittedLog env r
      → IsPermittedLog env (decrypt_pdu fuel env r).1
  unfolding decrypt_pdu
  decrypt_pdu-IsPermitted zero r h = h
  decrypt_pdu-IsPermitted (suc fuel) r h =
      open_sealed-IsPermitted (last_two r.iov) (decrypt_pdu fuel env) r
        (decrypt_pdu-IsPermitted fuel) h

  next_frame-IsPermitted :
      (result : Result) (go : Reading → Reading) (d : Reading)
      → ((d : Reading) → IsPermittedLog env d.receiver → IsPermittedLog env (go d).receiver)
      → IsPermittedLog env d.receiver
      → IsPermittedLog env (next_frame result go d).receiver
  unfolding next_frame
  next_frame-IsPermitted Result.done go d hg h = hg d h
  next_frame-IsPermitted Result.again go d hg h = h
  next_frame-IsPermitted Result.failed go d hg h = h
  next_frame-IsPermitted Result.fault go d hg h = h

  with_frame-IsPermitted :
      (r : Receiver) (k : Receiver → Reading) (d : Reading)
      → ((r' : Receiver) → IsPermittedLog env r' → IsPermittedLog env (k r').receiver)
      → IsPermittedLog env r
      → IsPermittedLog env d.receiver
      → IsPermittedLog env (with_frame (begin_frame r) k d).receiver
  unfolding with_frame begin_frame add_vector
  with_frame-IsPermitted r k d hk h hd = elim (Bool_cases (r.num_done == 0)) [
    | inl e ↦ rw e (hk _ h)
    | inr e ↦ rw e (hk r h)
  ]

  read_frames-IsPermitted :
      (fuel : ℕ) (r : Receiver) (arrivals : List Arrival) (s : List ℕ)
      → IsPermittedLog env r
      → IsPermittedLog env (read_frames fuel env r arrivals s).receiver
  unfolding read_frames
  read_frames-IsPermitted zero r arrivals s h = h
  read_frames-IsPermitted (suc fuel) r arrivals s h =
      let go : Reading → Reading = λ d. read_frames fuel env d.receiver d.arrivals d.stream in
      let read : Receiver → Reading = λ r'.
        read_data env false (decrypt_pdu (suc r'.spl) env) (record r' { iov_offset = 0 }) arrivals
          s in
      with_frame-IsPermitted r (λ r'. next_frame (read r').result go (read r'))
        (stop Result.failed r arrivals s)
        (λ r' h'.
          next_frame-IsPermitted (read r').result go (read r')
            (λ d hd. read_frames-IsPermitted fuel d.receiver d.arrivals d.stream hd)
            (read_data-IsPermitted false (decrypt_pdu (suc r'.spl) env)
              (record r' { iov_offset = 0 }) arrivals s (decrypt_pdu-IsPermitted (suc r'.spl)) h'))
        h h

-- Whatever a server sends, in whatever pieces it arrives, whatever the callbacks do, and whether
-- `smb2_read_from_socket` fails or not: each PDU that it hands to a callback either is exempt (the
-- context is a server's, the PDU came out of a transform header, or it is a negotiate or a session
-- set-up), or the session does not seal at that time, and, if it signs, the PDU is a pending reply
-- or has the flag and a first vector whose signature is the one computed from the vectors behind the
-- length field and the earlier PDUs of the same read. The callbacks made before are taken to be such.
pub read_from_socket-IsPermitted :
    (env : Environment) (r : Receiver) (arrivals : List Arrival) (s : List ℕ)
    → All (IsPermitted env) r.log
    → All (IsPermitted env) (read_from_socket env r arrivals s).receiver.log
unfolding read_from_socket
read_from_socket-IsPermitted env r arrivals s h =
    read_frames-IsPermitted env (suc (length arrivals)) r arrivals s h
