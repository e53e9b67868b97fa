-- ===== src/Receive/Kept.antt =====
-- What the machine of smb2_read_data leaves alone: only the end of a PDU adds to the callbacks.
use photo_transfer_nativesmb.Common.{
  ℕ, ◌++◌, replicate, leb, ◌-◌, ◌+◌, ◌%◌, ◌^◌, ◌≡◌, if◌then◌else◌, refl, List, [], ◌∷◌, Bool, false,
  not, Option, none, some, arith,
}
use photo_transfer_nativesmb.Smb2.{Pdu, header_size}
use photo_transfer_nativesmb.Socket.{take, drop, at_most}
use photo_transfer_nativesmb.Header.{decode_header, note_header}
use photo_transfer_nativesmb.Trees.{select_tree_id}
use photo_transfer_nativesmb.Receive.State.{
  RecvState, at_heap, Delivery, Vector, Receiver, add_vector, add_buffer, write_vector, scatter,
  read_into,
}
use photo_transfer_nativesmb.Receive.Heading.{
  Outcome, more, opens, flushes, returns, Environment, wait_for, take_spl, take_transform,
  wait_for_fixed, drop_current, skip_unknown, find_request, take_notification, take_request,
  take_decoded, take_header,
}
use photo_transfer_nativesmb.Receive.Payload.{add_app_vectors, wait_for_variable}

abbrev pub receiver_of : Outcome → Receiver
receiver_of (more r) = r
receiver_of (opens r) = r
receiver_of (flushes r) = r
receiver_of (returns _ r) = r

-- The log, and the side that the context is on.
pub record IsKept (r r' : Receiver) : Type 0 where
  pub log : r'.log ≡ r.log
  pub side : r'.context.is_server ≡ r.context.is_server

pub take_spl-IsKept : (r : Receiver) → IsKept r (receiver_of (take_spl r))
unfolding take_spl wait_for add_vector
take_spl-IsKept r = ground arith

take_transform-IsKept : (r : Receiver) → IsKept r (receiver_of (take_transform r))
unfolding take_transform add_buffer add_vector
take_transform-IsKept r = ground arith

wait_for-IsKept :
    (r r' : Receiver) (state : RecvState) (len : ℕ)
    → IsKept r r'
    → IsKept r (receiver_of (wait_for state (add_buffer r' len) r'))
unfolding wait_for add_buffer add_vector
wait_for-IsKept r r' state len k = ground arith

wait_for_fixed-IsKept :
    (r r' : Receiver) (pdu : Pdu) → IsKept r r' → IsKept r (receiver_of (wait_for_fixed r' pdu))
unfolding wait_for_fixed wait_for add_buffer add_vector
wait_for_fixed-IsKept r r' pdu k = ground arith

find_request-IsKept : (x : Bool) (r : Receiver) → IsKept r (receiver_of (find_request x r))
unfolding find_request drop_current wait_for_fixed skip_unknown wait_for add_buffer add_vector
find_request-IsKept x r = ground arith

take_notification-IsKept :
    (env : Environment) (r : Receiver) → IsKept r (receiver_of (take_notification env r))
unfolding take_notification wait_for_fixed wait_for add_buffer add_vector
take_notification-IsKept env r = ground arith

take_request-IsKept : (r : Receiver) → IsKept r (receiver_of (take_request r))
unfolding take_request wait_for_fixed wait_for add_buffer add_vector
take_request-IsKept r = ground arith

take_decoded-IsKept :
    (env : Environment) (x : Bool) (r : Receiver) → IsKept r (receiver_of (take_decoded env x r))
unfolding take_decoded wait_for add_buffer add_vector
take_decoded-IsKept env x r =
    let granted = (r.context.credits + r.hdr.credit_request_response) % 2 ^ 32 in
    let c = if r.context.is_server then r.context else record r.context { credits = granted } in
    let r' = record r { context = c; payload_offset = r.num_done } in
    ground
      (arith, take_request-IsKept r', take_notification-IsKept env r', find_request-IsKept x r')

decode_header-side :
    (r : Receiver)
    → (decode_header r.context
        (record { buf = r.header_bytes; len = header_size })
        r.hdr).1.is_server
      ≡ r.context.is_server
unfolding decode_header note_header select_tree_id
decode_header-side r = ground arith

pub take_header-IsKept :
    (env : Environment) (x : Bool) (r : Receiver) → IsKept r (receiver_of (take_header env x r))
unfolding take_header
take_header-IsKept env x r =
    let (s, c, hdr) =
      decode_header r.context (record { buf = r.header_bytes; len = header_size }) r.hdr in
    let r' = record r { context = c; hdr = hdr } in
    ground (arith, take_transform-IsKept r, decode_header-side r, take_decoded-IsKept env x r')

-- Only a server flushes.
abbrev pub is_unserved : Outcome → Bool
is_unserved (flushes r) = not r.context.is_server
is_unserved (more _) = false
is_unserved (opens _) = false
is_unserved (returns _ _) = false

wait_for_fixed_served : (r : Receiver) (pdu : Pdu) → is_unserved (wait_for_fixed r pdu) ≡ false
unfolding wait_for_fixed wait_for
wait_for_fixed_served r pdu = ground arith

find_request_served : (x : Bool) (r : Receiver) → is_unserved (find_request x r) ≡ false
unfolding find_request wait_for_fixed skip_unknown wait_for
find_request_served x r = ground arith

take_notification_served :
    (env : Environment) (r : Receiver) → is_unserved (take_notification env r) ≡ false
unfolding take_notification wait_for_fixed wait_for
take_notification_served env r = ground arith

take_request_served : (r : Receiver) → is_unserved (take_request r) ≡ false
unfolding take_request wait_for_fixed wait_for
take_request_served r = ground arith

take_decoded_served :
    (env : Environment) (x : Bool) (r : Receiver) → is_unserved (take_decoded env x r) ≡ false
unfolding take_decoded wait_for
take_decoded_served env x r =
    let granted = (r.context.credits + r.hdr.credit_request_response) % 2 ^ 32 in
    let c = if r.context.is_server then r.context else record r.context { credits = granted } in
    let r' = record r { context = c; payload_offset = r.num_done } in
    ground
      (arith, take_request_served r', take_notification_served env r', find_request_served x r')

pub take_header_served :
    (env : Environment) (x : Bool) (r : Receiver) → is_unserved (take_header env x r) ≡ false
unfolding take_header take_transform
take_header_served env x r =
    let (s, c, hdr) =
      decode_header r.context (record { buf = r.header_bytes; len = header_size }) r.hdr in
    let r' = record r { context = c; hdr = hdr } in ground (arith, take_decoded_served env x r')

scatter-log :
    (r : Receiver) (vs : List Vector) (n : ℕ) (bytes : List ℕ)
    → (scatter r vs n bytes).0.log ≡ r.log
unfolding scatter
scatter-log r [] n bytes = refl
scatter-log r (v ∷ vs) n bytes =
    let r' = (write_vector r v n (take (v.len - n) bytes)).0 in
    let skipped = leb v.len n in
    let e : r'.log ≡ r.log = unfold write_vector in ground arith in
    ground (
      arith,
      e,
      scatter-log (if skipped then r else r') vs (n - v.len)
          (if skipped then bytes else drop (v.len - n) bytes),
    )

pub read_into-log : (r : Receiver) (bytes : List ℕ) → (read_into r bytes).log ≡ r.log
unfolding read_into
read_into-log r bytes = scatter-log r r.iov r.num_done bytes

abbrev log_of : List Delivery → Option (Receiver × ℕ) → List Delivery
log_of log none = log
log_of log (some (r, _)) = r.log

add_app_vectors-log :
    (r : Receiver) (sizes : List ℕ) (len : ℕ) (log : List Delivery)
    → r.log ≡ log
    → log_of log (add_app_vectors r sizes len) ≡ log
unfolding add_app_vectors
add_app_vectors-log r [] len log e = e
add_app_vectors-log r (size ∷ sizes) len log e =
    let num = at_most size len in
    let r' = record r {
      total_size = (r.total_size + num) % 2 ^ 64;
      iov = r.iov ++ (record { place = at_heap (replicate size 0); len = num } ∷ []);
    } in
    unfold add_vector in ground (arith, add_app_vectors-log r' sizes (len - num) log e)

wait_for_variable-log :
    (r : Receiver) (o : Option (Receiver × ℕ))
    → log_of r.log o ≡ r.log
    → (receiver_of (wait_for_variable r o)).log ≡ r.log
unfolding wait_for_variable wait_for add_buffer add_vector
wait_for_variable-log r none e = refl
wait_for_variable-log r (some (r', len)) e = ground arith

pub wait_for_variable_app-log :
    (r : Receiver) (sizes : List ℕ) (len : ℕ)
    → (receiver_of (wait_for_variable r (add_app_vectors r sizes len))).log ≡ r.log
wait_for_variable_app-log r sizes len =
    wait_for_variable-log r (add_app_vectors r sizes len)
      (add_app_vectors-log r sizes len r.log refl)
