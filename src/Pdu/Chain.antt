-- ===== src/Pdu/Chain.antt =====
-- Compound chains: smb2_add_compound_pdu keeps each member's link to the next, in the header and in
-- the bytes that are sent.
use photo_transfer_nativesmb.Common.{
  ℕ, ◌+◌, ◌*◌, ◌%◌, ◌^◌, ◌/◌, ◌≤◌, ◌<◌, ◌≡◌, refl, List, [], ◌∷◌, ◌++◌, map, All, length, arith,
  none, some, Option, bit_and, bit_or, ap, inl,
}
use photo_transfer_nativesmb.Common.Bits.{bit_or_step, bit_or-zero, bit_and_bit}
use photo_transfer_nativesmb.Wire.{Iovec, get_uint, set_uint32}
use photo_transfer_nativesmb.Wire.Access.{get_uint-set_uint_self, get_uint-set_uint_ne}
use photo_transfer_nativesmb.Wire.Vectors.{sum_len}
use photo_transfer_nativesmb.Smb2.{Pdu}
use photo_transfer_nativesmb.Smb2.Flags
use photo_transfer_nativesmb.Pdu.{add_compound_pdu, point_to_next, mark_related, patch_header}

-- A PDU with a header vector of 64 bytes, and as many bytes as an int counts.
pub record IsMade (p : Pdu) : Type 0 where
  pub iov0 : Iovec
  pub rest : List Iovec
  pub vectors : p.out.iov ≡ iov0 ∷ rest
  pub header : 64 ≤ iov0.len
  pub backed : iov0.len ≤ length iov0.buf
  pub size : sum_len p.out.iov < 2 ^ 31
  pub flags : p.header.flags < 2 ^ 32

-- The field of the header's bytes at `offset`.
unfoldable pub sent : Pdu → ℕ → Option ℕ
sent p offset = elim p.out.iov [ [] ↦ none | iov0 ∷ rest ↦ get_uint 4 iov0 offset ]

-- The next header stands where `next_command` says: behind all the vectors of this PDU.
pub record IsLinked (p : Pdu) : Type 0 where
  pub next : p.header.next_command ≡ sum_len p.out.iov
  pub next_sent : sent p 20 ≡ some (sum_len p.out.iov)

pub record IsRelated (p : Pdu) : Type 0 where
  pub flag : bit_and p.header.flags Flags.related_operations ≡ Flags.related_operations
  pub flag_sent : sent p 16 ≡ some p.header.flags

unfoldable pub IsCompound : List Pdu → Type 0
IsCompound [] = Unit {0}
IsCompound (p ∷ []) = Unit {0}
IsCompound (p ∷ q ∷ chain) = IsLinked p × IsRelated q × IsCompound (q ∷ chain)

bit_or_related : (a : ℕ) → bit_or a 4 ≡ a / 8 * 8 + 4 + a % 4
bit_or_related a = omega (
  arith,
  bit_or_step a 4,
  bit_or_step (a / 2) 2,
  bit_or_step (a / 2 / 2) 1,
  bit_or-zero (a / 2 / 2 / 2),
)

point_to_next-IsLinked : (p : Pdu) → IsMade p → IsLinked (point_to_next p)
unfolding point_to_next patch_header set_uint32 sent sum_len
point_to_next-IsLinked p m =
    let offset = sum_len p.out.iov % 2 ^ 32 in
    ground (
      arith,
      m.vectors,
      m.header,
      m.size,
      get_uint-set_uint_self 4 m.iov0 20 offset m.backed (omega arith),
    )

point_to_next-IsRelated : (p : Pdu) → IsMade p → IsRelated p → IsRelated (point_to_next p)
unfolding point_to_next patch_header set_uint32 sent
point_to_next-IsRelated p m r = ground (
  arith,
  m.vectors,
  r.flag,
  r.flag_sent,
  get_uint-set_uint_ne 4 4 m.iov0 20 16 (sum_len p.out.iov % 2 ^ 32) (inl (omega arith)),
)

mark_related-IsRelated : (p : Pdu) → IsMade p → IsRelated (mark_related p)
unfolding mark_related patch_header set_uint32 sent
mark_related-IsRelated p m =
    let flags = bit_or p.header.flags 4 in
    let bits : flags ≡ p.header.flags / 8 * 8 + 4 + p.header.flags % 4 =
      bit_or_related p.header.flags in
    let small : flags < 2 ^ 32 = omega (arith, bits, m.flags) in
    ground (
      arith,
      m.vectors,
      m.header,
      bits,
      bit_and_bit 2 flags,
      get_uint-set_uint_self 4 m.iov0 16 flags m.backed (omega (arith, small)),
    )

point_to_next-IsMade : (p : Pdu) → IsMade p → IsMade (point_to_next p)
unfolding point_to_next patch_header set_uint32 sum_len
point_to_next-IsMade p m =
    let offset = sum_len p.out.iov % 2 ^ 32 in
    let kept = get_uint-set_uint_self 4 m.iov0 20 offset m.backed (omega arith) in
    record {
      iov0 = (set_uint32 m.iov0 20 offset).1;
      rest = m.rest;
      vectors = ground (arith, m.vectors);
      header = ground (arith, m.header, kept);
      backed = ground (arith, m.backed, kept);
      size = ground (arith, m.size, m.vectors, kept);
      flags = m.flags;
    }

mark_related-IsMade : (p : Pdu) → IsMade p → IsMade (mark_related p)
unfolding mark_related patch_header set_uint32 sum_len
mark_related-IsMade p m =
    let flags = bit_or p.header.flags 4 in
    let small : flags < 2 ^ 32 = omega (arith, bit_or_related p.header.flags, m.flags) in
    let kept = get_uint-set_uint_self 4 m.iov0 16 flags m.backed (omega (arith, small)) in
    record {
      iov0 = (set_uint32 m.iov0 16 flags).1;
      rest = m.rest;
      vectors = ground (arith, m.vectors);
      header = ground (arith, m.header, kept);
      backed = ground (arith, m.backed, kept);
      size = ground (arith, m.size, m.vectors, kept);
      flags = small;
    }

-- The chain that `smb2_add_compound_pdu` makes has one member more, at its end, and the others in
-- their order. If each member of the chain was linked to the next, in its header and in the bytes
-- that are sent, and each but the first was marked as related, then so it is with the new chain.
pub add_compound_pdu-IsCompound :
    (p : Pdu) (chain : List Pdu) (next : Pdu)
    → All IsMade (p ∷ chain)
    → IsMade next
    → IsCompound (p ∷ chain)
    → IsCompound (add_compound_pdu (p ∷ chain) next)
      × All IsMade (add_compound_pdu (p ∷ chain) next)
      × (map (λ q. q.ref) (add_compound_pdu (p ∷ chain) next)
          ≡ map (λ q. q.ref) (p ∷ chain) ++ (next.ref ∷ []))
unfolding add_compound_pdu IsCompound point_to_next mark_related
add_compound_pdu-IsCompound p [] next (m, _) n h = (
  (point_to_next-IsLinked p m, mark_related-IsRelated next n, tt),
  (point_to_next-IsMade p m, (mark_related-IsMade next n, tt)),
  refl,
)
add_compound_pdu-IsCompound p (q ∷ []) next (m, (mq, _)) n (linked, related, h) = (
  (
    linked,
    point_to_next-IsRelated q mq related,
    (point_to_next-IsLinked q mq, mark_related-IsRelated next n, tt),
  ),
  (m, (point_to_next-IsMade q mq, (mark_related-IsMade next n, tt))),
  refl,
)
add_compound_pdu-IsCompound p (q ∷ r ∷ chain) next (m, ms) n (linked, related, h) =
    let (c, made, refs) = add_compound_pdu-IsCompound q (r ∷ chain) next ms n h in
    ((linked, related, c), (m, made), ap (λ xs. p.ref ∷ xs) refs)
