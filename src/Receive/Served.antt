-- ===== src/Receive/Served.antt =====
-- Only a server throws away the rest of an SMB1 negotiate.
use photo_transfer_nativesmb.Common.{
  ℕ, ◌≡◌, refl, List, Bool, false, Option, none, some, true, if◌then◌else◌, arith,
}
use photo_transfer_nativesmb.Smb2.{Pdu}
use photo_transfer_nativesmb.Receive.State.{RecvState, Receiver, read_into}
use photo_transfer_nativesmb.Receive.Heading.{Environment, wait_for, take_spl}
use photo_transfer_nativesmb.Receive.Payload.{
  complete, complete_verified, drop_pending, finish, take_padding, take_fixed, take_variable,
  parse_fixed, parse_variable, with_current, wait_for_variable, verify_signature, message,
  must_verify,
}
use photo_transfer_nativesmb.Receive.Loop.{advance, advance_at, round}
use photo_transfer_nativesmb.Receive.Kept.{is_unserved, take_header_served}

module _ (env : Environment) (x : Bool) where
  complete_served :
      (r : Receiver) (v : Option Bool) (current : Option Pdu)
      → is_unserved (complete_verified v current env x r) ≡ false
  unfolding complete_verified complete wait_for
  complete_served r v current = ground arith

  finish_served : (r : Receiver) → is_unserved (finish env x r) ≡ false
  unfolding finish drop_pending
  finish_served r =
      let v = if must_verify r then verify_signature env r (message r) else some true in
      ground (arith, complete_served r v r.current)

  take_padding_served : (r : Receiver) → is_unserved (take_padding env x r) ≡ false
  unfolding take_padding wait_for
  take_padding_served r = ground (arith, finish_served r)

  fixed_served :
      (r : Receiver) (current : Option Pdu)
      → is_unserved (with_current current (parse_fixed env x r) r) ≡ false
  unfolding with_current parse_fixed wait_for_variable wait_for
  fixed_served r none = refl
  fixed_served r (some pdu) =
      ground (arith, take_padding_served (record r { context = (env.process_fixed r pdu).1 }))

  variable_served :
      (r : Receiver) (current : Option Pdu)
      → is_unserved (with_current current (parse_variable env x r) r) ≡ false
  unfolding with_current parse_variable
  variable_served r none = refl
  variable_served r (some pdu) =
      ground (arith, take_padding_served (record r { context = (env.process_variable r pdu).1 }))

  at_state_served :
      (r : Receiver) (state : RecvState) → is_unserved (advance_at state env x r) ≡ false
  unfolding advance_at take_fixed take_variable take_spl wait_for
  at_state_served r RecvState.spl = ground arith
  at_state_served r RecvState.header = take_header_served env x r
  at_state_served r RecvState.fixed = fixed_served r r.current
  at_state_served r RecvState.variable = variable_served r r.current
  at_state_served r RecvState.pad = finish_served r
  at_state_served r RecvState.trfm = refl
  at_state_served r RecvState.unknown = refl

  pub round_served : (r : Receiver) (bytes : List ℕ) → is_unserved (round env x r bytes) ≡ false
  unfolding round advance
  round_served r bytes =
      ground (arith, at_state_served (read_into r bytes) (read_into r bytes).recv_state)
