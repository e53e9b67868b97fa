-- ===== src/Receive/Policy.antt =====
-- The receive policy of a client: which replies smb2_read_data hands to the application.
use photo_transfer_nativesmb.Common.{
  ℕ, ◌≡◌, ◌≢◌, ◌⊎◌, inl, inr, refl, sym, List, [], ◌∷◌, ◌++◌, Bool, true, false, ◌||◌, ◌==◌, Option,
  none, some, All, arith, Option-cases, bit_and, if◌then◌else◌,
}
use mathlib.Core.Path.{subst}
use photo_transfer_nativesmb.Wire.{Iovec, get_bytes}
use photo_transfer_nativesmb.Smb2.{Pdu, Context}
use photo_transfer_nativesmb.Smb2.Command
use photo_transfer_nativesmb.Smb2.Flags
use photo_transfer_nativesmb.Smb2.NtStatus
use photo_transfer_nativesmb.Header.{same_bytes}
use photo_transfer_nativesmb.Signing.{Keys, calc_signature}
use photo_transfer_nativesmb.Receive.State.{
  RecvState, Receiver, Delivery, add_vector, add_buffer, read_into,
}
use photo_transfer_nativesmb.Receive.Heading.{Outcome, Environment, wait_for}
use photo_transfer_nativesmb.Receive.Payload.{
  deliver, complete, complete_verified, drop_pending, finish, violates_policy, verify_signature,
  message, must_verify, take_padding, take_fixed, take_variable, parse_fixed, parse_variable,
  with_current,
}
use photo_transfer_nativesmb.Receive.Loop.{advance, advance_at, round}
use photo_transfer_nativesmb.Receive.Kept.{
  read_into-log, take_spl-IsKept, take_header-IsKept, wait_for_variable_app-log, receiver_of,
}

-- The first vector has the signature that is computed from all of them with its field cleared.
pub record IsSigned (env : Environment) (c : Context) (keys : Keys) (m : List Iovec) : Type 0 where
  pub first : Iovec
  pub rest : List Iovec
  pub parts : m ≡ first ∷ rest
  pub same : get_bytes 16 first.buf 48 ≡ (calc_signature env.ecb env.hmac c keys (first ∷ rest)).0

-- The policy is that of a client, for bare PDUs behind the set-up of the session.
abbrev pub is_exempt : Delivery → Bool
is_exempt e =
    e.context.is_server
    || e.is_sealed
    || e.hdr.command == Command.negotiate
    || e.hdr.command == Command.session_setup

abbrev pub IsPermitted : Environment → Delivery → Type 0
IsPermitted env e =
    (is_exempt e ≡ true)
    ⊎ (e.context.seal ≡ false)
      × ((e.context.sign ≡ false)
          ⊎ (e.hdr.status ≡ NtStatus.pending)
          ⊎ (bit_and e.hdr.flags Flags.signed ≢ 0) × IsSigned env e.context e.keys e.message)

same_bytes-≡ : (xs ys : List ℕ) → same_bytes xs ys ≡ true → xs ≡ ys
unfolding same_bytes
same_bytes-≡ [] [] h = refl
same_bytes-≡ [] (y ∷ ys) h = ground arith
same_bytes-≡ (x ∷ xs) [] h = ground arith
same_bytes-≡ (x ∷ xs) (y ∷ ys) h = ground (arith, same_bytes-≡ xs ys)

pub All-append :
    (P : Delivery → Type 0) (xs : List Delivery) (e : Delivery)
    → All P xs
    → P e
    → All P (xs ++ (e ∷ []))
All-append P [] e h p = (p, tt)
All-append P (x ∷ xs) e (h, hs) p = (h, All-append P xs e hs p)

-- The entry that a call of the callback adds.
abbrev pub entry : Bool → Receiver → Delivery
entry x r = record {
  context = r.context;
  keys = r.keys;
  hdr = r.hdr;
  is_sealed = x;
  message = message r;
}

deliver-log :
    (env : Environment) (x : Bool) (r : Receiver) (pdu : Pdu)
    → (deliver env x r pdu).log ≡ r.log ++ (entry x r ∷ [])
unfolding deliver
deliver-log env x r pdu = ground arith

complete-log :
    (env : Environment) (x : Bool) (r : Receiver) (pdu : Pdu)
    → (receiver_of (complete env x r pdu)).log ≡ r.log ++ (entry x r ∷ [])
unfolding complete wait_for add_vector deliver message
complete-log env x r pdu = ground arith

verify_signature-IsSigned :
    (env : Environment) (r : Receiver) (m : List Iovec)
    → verify_signature env r m ≡ some true
    → IsSigned env r.context r.keys m
unfolding verify_signature
verify_signature-IsSigned env r [] h = cc
verify_signature-IsSigned env r (first ∷ ios) h = record {
  first = first;
  rest = ios;
  parts = refl;
  same = ground (
    arith,
    same_bytes-≡ (get_bytes 16 first.buf 48)
        (calc_signature env.ecb env.hmac r.context r.keys (first ∷ ios)).0,
  );
}

-- What passed the checks of `finish` is permitted.
permitted :
    (env : Environment) (x : Bool) (r : Receiver)
    → violates_policy x r ≡ false
    → (r.hdr.status ≡ NtStatus.pending)
      ⊎ (must_verify r ≡ false)
      ⊎ (verify_signature env r (message r) ≡ some true)
    → IsPermitted env (entry x r)
unfolding violates_policy
permitted env x r ok checked = ground (arith, verify_signature-IsSigned env r (message r))

drop_pending-log :
    (env : Environment) (x : Bool) (r : Receiver)
    → ((receiver_of (drop_pending env x r)).log ≡ r.log)
      ⊎ ((receiver_of (drop_pending env x r)).log ≡ r.log ++ (entry x r ∷ []))
unfolding drop_pending deliver message
drop_pending-log env x r = ground arith

complete_verified-log :
    (v : Option Bool) (current : Option Pdu) (env : Environment) (x : Bool) (r : Receiver)
    → ((receiver_of (complete_verified v current env x r)).log ≡ r.log)
      ⊎ (v ≡ some true)
        × ((receiver_of (complete_verified v current env x r)).log ≡ r.log ++ (entry x r ∷ []))
unfolding complete_verified
complete_verified-log none current env x r = inl refl
complete_verified-log (some false) current env x r = inl refl
complete_verified-log (some true) none env x r = inl refl
complete_verified-log (some true) (some pdu) env x r = inr (refl, complete-log env x r pdu)

-- `finish` calls the callback only behind its checks.
finish_cases :
    (env : Environment) (x : Bool) (r : Receiver)
    → ((receiver_of (finish env x r)).log ≡ r.log)
      ⊎ ((receiver_of (finish env x r)).log ≡ r.log ++ (entry x r ∷ []))
        × (violates_policy x r ≡ false)
        × ((r.hdr.status ≡ NtStatus.pending)
            ⊎ (must_verify r ≡ false)
            ⊎ (verify_signature env r (message r) ≡ some true))
unfolding finish
finish_cases env x r =
    let v = if must_verify r then verify_signature env r (message r) else some true in
    ground (arith, drop_pending-log env x r, complete_verified-log v r.current env x r)

pub finish-IsPermitted :
    (env : Environment) (x : Bool) (r : Receiver)
    → All (IsPermitted env) r.log
    → All (IsPermitted env) (receiver_of (finish env x r)).log
finish-IsPermitted env x r h = elim (finish_cases env x r) [
  | inl same ↦ subst (All (IsPermitted env)) (sym same) h
  | inr (added, ok, checked) ↦
      subst (All (IsPermitted env)) (sym added)
        (All-append (IsPermitted env) r.log (entry x r) h (permitted env x r ok checked))
]

abbrev pub IsPermittedLog : Environment → Receiver → Type 0
IsPermittedLog env r = All (IsPermitted env) r.log

module _ (env : Environment) (x : Bool) where
  take_padding_cases :
      (r : Receiver)
      → ((receiver_of (take_padding env x r)).log ≡ r.log) ⊎ (take_padding env x r ≡ finish env x r)
  unfolding take_padding wait_for add_buffer add_vector
  take_padding_cases r = ground arith

  take_padding-IsPermitted :
      (r : Receiver)
      → IsPermittedLog env r
      → IsPermittedLog env (receiver_of (take_padding env x r))
  take_padding-IsPermitted r h = elim (take_padding_cases r) [
    | inl e ↦ subst (All (IsPermitted env)) (sym e) h
    | inr e ↦ rw e (finish-IsPermitted env x r h)
  ]

  with_current-IsPermitted :
      (current : Option Pdu) (k : Pdu → Outcome) (r : Receiver)
      → IsPermittedLog env r
      → ((pdu : Pdu) → IsPermittedLog env (receiver_of (k pdu)))
      → IsPermittedLog env (receiver_of (with_current current k r))
  unfolding with_current
  with_current-IsPermitted none k r h hk = h
  with_current-IsPermitted (some pdu) k r h hk = hk pdu

  parse_fixed_cases :
      (r : Receiver) (pdu : Pdu)
      → let r' = record r { context = (env.process_fixed r pdu).1 } in
        ((receiver_of (parse_fixed env x r pdu)).log ≡ r.log)
        ⊎ (parse_fixed env x r pdu ≡ take_padding env x r')
  unfolding parse_fixed
  parse_fixed_cases r pdu =
      let r' = record r { context = (env.process_fixed r pdu).1 } in
      elim (Option-cases (env.process_fixed r pdu).0) [
        | inl e ↦ ground (arith, e)
        | inr (len, e) ↦ ground (arith, e, wait_for_variable_app-log r' (env.app_vectors pdu) len)
      ]

  parse_variable_cases :
      (r : Receiver) (pdu : Pdu)
      → let r' = record r { context = (env.process_variable r pdu).1 } in
        ((receiver_of (parse_variable env x r pdu)).log ≡ r.log)
        ⊎ (parse_variable env x r pdu ≡ take_padding env x r')
  unfolding parse_variable
  parse_variable_cases r pdu = ground arith

  parse_fixed-IsPermitted :
      (r : Receiver)
      → IsPermittedLog env r
      → (pdu : Pdu) → IsPermittedLog env (receiver_of (parse_fixed env x r pdu))
  parse_fixed-IsPermitted r h pdu = elim (parse_fixed_cases r pdu) [
    | inl e ↦ subst (All (IsPermitted env)) (sym e) h
    | inr e ↦ rw e (take_padding-IsPermitted (record r { context = (env.process_fixed r pdu).1 }) h)
  ]

  parse_variable-IsPermitted :
      (r : Receiver)
      → IsPermittedLog env r
      → (pdu : Pdu) → IsPermittedLog env (receiver_of (parse_variable env x r pdu))
  parse_variable-IsPermitted r h pdu = elim (parse_variable_cases r pdu) [
    | inl e ↦ subst (All (IsPermitted env)) (sym e) h
    | inr e ↦
        rw e (take_padding-IsPermitted (record r { context = (env.process_variable r pdu).1 }) h)
  ]

  at_state :
      (r : Receiver)
      → IsPermittedLog env r
      → (state : RecvState) → IsPermittedLog env (receiver_of (advance_at state env x r))
  unfolding advance_at take_fixed take_variable
  at_state r h RecvState.spl = subst (All (IsPermitted env)) (sym (take_spl-IsKept r).log) h
  at_state r h RecvState.header =
      subst (All (IsPermitted env)) (sym (take_header-IsKept env x r).log) h
  at_state r h RecvState.fixed =
      with_current-IsPermitted r.current (parse_fixed env x r) r h (parse_fixed-IsPermitted r h)
  at_state r h RecvState.variable =
      with_current-IsPermitted r.current (parse_variable env x r) r h
        (parse_variable-IsPermitted r h)
  at_state r h RecvState.pad = finish-IsPermitted env x r h
  at_state r h RecvState.trfm = h
  at_state r h RecvState.unknown = h

  round_cases :
      (r : Receiver) (bytes : List ℕ)
      → ((receiver_of (round env x r bytes)).log ≡ r.log)
        ⊎ (round env x r bytes ≡ advance env x (read_into r bytes))
  unfolding round
  round_cases r bytes = ground (arith, read_into-log r bytes)

  pub round-IsPermitted :
      (r : Receiver) (bytes : List ℕ)
      → IsPermittedLog env r
      → IsPermittedLog env (receiver_of (round env x r bytes))
  unfolding advance
  round-IsPermitted r bytes h = elim (round_cases r bytes) [
    | inl e ↦ subst (All (IsPermitted env)) (sym e) h
    | inr e ↦ rw e (
        at_state (read_into r bytes) (subst (All (IsPermitted env)) (sym (read_into-log r bytes)) h)
          (read_into r bytes).recv_state)
  ]
