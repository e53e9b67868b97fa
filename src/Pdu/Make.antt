-- ===== src/Pdu/Make.antt =====
-- New PDUs and chains: smb2_allocate_pdu makes a header that can be sent on the tree that is current,
-- and smb2_add_compound_pdu keeps the links of a chain.
use photo_transfer_nativesmb.Common.{
  ℕ, ◌+◌, ◌^◌, ◌≤◌, ◌<◌, ◌≡◌, refl, arith, some, ◌==◌, if◌then◌else◌, ◌⊎◌, inl, inr, true,
}
use photo_transfer_nativesmb.Wire.{ok}
use photo_transfer_nativesmb.Wire.Vectors.{IsWf, add_iovector, sum_len}
use photo_transfer_nativesmb.Smb2.{Pdu, Context, header_size, tree_id}
use photo_transfer_nativesmb.Smb2.Command
use photo_transfer_nativesmb.Smb2.Dialect
use photo_transfer_nativesmb.Trees.{current_tree_id, is_treeless, get_tree_id_for_pdu}
use photo_transfer_nativesmb.Header.RoundTrip.{IsWire}
use photo_transfer_nativesmb.Pdu.{
  allocate_pdu, new_header, initial_charge, charge_for_one, max_credits,
}

-- The values of a context that go into headers fit their fields.
pub record IsSession (c : Context) : Type 0 where
  pub session_id : c.session_id < 2 ^ 64
  pub tree : current_tree_id c < 2 ^ 32
  pub credits : c.credits ≤ max_credits

-- A command that is sent without a tree, or a tree to send it on.
abbrev pub HasTree : Context → ℕ → Type 0
HasTree c command = (is_treeless command ≡ true) ⊎ (0 < c.tree_id_top)

-- A dialect is agreed on, or being agreed on.
abbrev pub HasDialect : Context → ℕ → Type 0
HasDialect c command = (command ≡ Command.negotiate) ⊎ (Dialect.v0202 ≤ c.dialect)

new_header-IsWire :
    (c : Context) (command : ℕ) → IsSession c → command < 2 ^ 16 → IsWire (new_header c command)
unfolding new_header
new_header-IsWire c command s hc = ground (arith, s.session_id, s.tree)

new_header_credits :
    (c : Context) (command : ℕ)
    → IsSession c
    → (new_header c command).credit_request_response + c.credits ≡ max_credits
unfolding new_header
new_header_credits c command s = omega (arith, s.credits)

new_header_tree :
    (c : Context) (command : ℕ)
    → IsSession c
    → HasTree c command
    → get_tree_id_for_pdu c (some (new_header c command)) ≡ (ok, tree_id (new_header c command))
unfolding new_header get_tree_id_for_pdu
new_header_tree c command s t = elim t [
  | inl e ↦ ground (arith, e, s.tree)
  | inr e ↦ ground (arith, e, s.tree)
]

new_header_charge :
    (c : Context) (command : ℕ)
    → IsSession c
    → HasDialect c command
    → charge_for_one c (new_header c command) ≡ (if command == Command.negotiate then 0 else 1)
unfolding new_header initial_charge charge_for_one
new_header_charge c command s d = elim d [ inl e ↦ ground (arith, e) | inr e ↦ ground (arith, e) ]

-- In a context whose session id and current tree id fit their fields and that has at most 1024
-- credits, for a 16-bit command that needs no tree or with a tree connected, and for a negotiate request or
-- with a dialect agreed on: `smb2_allocate_pdu` finds room for the header, the header can be sent,
-- asks for the credits that are missing to 1024, and has the tree id that
-- `smb2_get_tree_id_for_pdu` gives for it. Sending the PDU takes one credit, and none for a negotiate
-- request.
pub allocate_pdu-IsWire :
    (c : Context) (ref now command : ℕ)
    → IsSession c
    → HasTree c command
    → HasDialect c command
    → command < 2 ^ 16
    → (p : Pdu) × (allocate_pdu c ref now command ≡ some p)
      × IsWire p.header
      × IsWf p.out
      × (sum_len p.out.iov ≡ header_size)
      × (p.header.credit_request_response + c.credits ≡ max_credits)
      × (get_tree_id_for_pdu c (some p.header) ≡ (ok, tree_id p.header))
      × (charge_for_one c p.header ≡ (if command == Command.negotiate then 0 else 1))
unfolding allocate_pdu add_iovector
allocate_pdu-IsWire c ref now command s t d hc = (
  _,
  refl,
  new_header-IsWire c command s hc,
  record { room = omega arith; sized = unfold sum_len in refl },
  unfold sum_len in refl,
  new_header_credits c command s,
  new_header_tree c command s t,
  new_header_charge c command s d,
)
