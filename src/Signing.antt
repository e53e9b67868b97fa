-- ===== src/Signing.antt =====
-- Sources/CSMB/lib/smb2-signing.c: AES-CMAC and the signatures of PDUs. The block cipher `ecb` and the
-- keyed digest `hmac` (HMAC-SHA256) are copies of other projects, and parameters here, each of a key
-- and the bytes; memory is taken to suffice.
pub mod Bytes
pub mod Doubling
pub mod Mac
mod Tests
use Prim.Native.Nat.{bit_xor}
use photo_transfer_nativesmb.Common.{
  ℕ, zero, suc, ◌+◌, ◌-◌, ◌*◌, ◌/◌, ◌%◌, ◌^◌, List, [], ◌∷◌, ◌++◌, Bool, ◌&&◌, ◌||◌, not, ltb, ◌==◌,
  if◌then◌else◌, bit_and, bit_or, replicate, length,
}
use photo_transfer_nativesmb.Wire.{Iovec, Status, ok, fail, set_uint32, put_bytes, get_bytes}
use photo_transfer_nativesmb.Smb2.{Pdu, Context, header_size}
use photo_transfer_nativesmb.Smb2.Command
use photo_transfer_nativesmb.Smb2.Flags
use photo_transfer_nativesmb.Smb2.Dialect

-- `session_key_size` and `signing_key` of a context.
pub record Keys : Type 0 where
  pub session_key_size : ℕ
  pub signing_key : List ℕ

-- The loop from the last byte to the first: the bytes, and what is carried out.
unfoldable pub shift_left : List ℕ → List ℕ × ℕ
shift_left [] = ([], 0)
shift_left (b ∷ bs) =
    let (bs', cin) = shift_left bs in (bit_or (b * 2 % 256) cin ∷ bs', bit_and b 0x80 / 2 ^ 7)

unfoldable pub xor : List ℕ → List ℕ → List ℕ
xor [] ws = []
xor (b ∷ bs) [] = b ∷ bs
xor (b ∷ bs) (w ∷ ws) = bit_xor b w ∷ xor bs ws

abbrev pub rb : List ℕ
rb = replicate 15 0 ++ (0x87 ∷ [])

-- A sub-key from the one before it.
unfoldable pub next_key : List ℕ → List ℕ
next_key k = let (k', carry) = shift_left k in if carry == 0 then k' else xor k' rb

module _ (ecb hmac : List ℕ → List ℕ → List ℕ) where
  abbrev sub_key1 : List ℕ → List ℕ
  sub_key1 key = next_key (ecb key (replicate 16 0))

  -- `for (i = 0; i < n - 1; i++)`, with the rounds that are left.
  unfoldable pub cmac_blocks : ℕ → ℕ → List ℕ → List ℕ → List ℕ → List ℕ
  cmac_blocks zero i key msg mac = mac
  cmac_blocks (suc rounds) i key msg mac =
      cmac_blocks rounds (i + 1) key msg (ecb key (xor mac (get_bytes 16 msg (i * 16))))

  -- The last block, padded if it is not complete.
  unfoldable pub cmac_last : ℕ → List ℕ → List ℕ → List ℕ
  cmac_last i key msg =
      let rem = length msg % 16 in
      let k1 = sub_key1 key in
      if not (length msg == 0) && rem == 0
      then xor (get_bytes 16 msg (i * 16)) k1
      else xor (get_bytes rem msg (i * 16) ++ (0x80 ∷ replicate (15 - rem) 0)) (next_key k1)

  unfoldable pub aes_cmac_128 : List ℕ → List ℕ → List ℕ
  aes_cmac_128 key msg =
      let n = (length msg + 15) / 16 in
      let blocks = if n == 0 then 1 else n in
      let mac = cmac_blocks (blocks - 1) 0 key msg (replicate 16 0) in
      ecb key (xor mac (cmac_last (blocks - 1) key msg))

  -- The bytes of the vectors in one buffer.
  unfoldable pub combined : List Iovec → List ℕ
  combined [] = []
  combined (io ∷ ios) = get_bytes io.len io.buf 0 ++ combined ios

  -- `memset(iov[0].buf + 48, 0, 16)`
  unfoldable pub clear_signature : List Iovec → List Iovec
  clear_signature [] = []
  clear_signature (iov0 ∷ ios) = record iov0 { buf = put_bytes iov0.buf 48 (replicate 16 0) } ∷ ios

  -- The signature, and the vectors, in which its field was cleared.
  unfoldable pub calc_signature : Context → Keys → List Iovec → List ℕ × List Iovec
  calc_signature c keys iov =
      let cleared = clear_signature iov in
      let msg = combined cleared in
      if ltb Dialect.v0210 c.dialect
      then (get_bytes 16 (aes_cmac_128 keys.signing_key msg) 0, cleared)
      else (get_bytes 16 (hmac (get_bytes 16 keys.signing_key 0) msg) 0, cleared)

  -- The signature is put into the header and into its bytes.
  unfoldable pub sign_with : Context → Keys → Pdu → Iovec → List Iovec → Pdu
  sign_with c keys p iov0 ios =
      let flags = bit_or p.header.flags Flags.signed in
      let flagged = (set_uint32 iov0 16 flags).1 in
      let (signature, cleared) = calc_signature c keys (flagged ∷ ios) in
      let signed : List Iovec = elim cleared [
        | [] ↦ []
        | first ∷ rest ↦ record first { buf = put_bytes first.buf 48 signature } ∷ rest
      ] in
      record p {
        header = record p.header { flags = flags; signature = signature };
        out = record p.out { iov = signed };
      }

  -- A session set-up is signed only by the server, in the reply that ends it.
  abbrev pub is_unsigned_setup : Pdu → Bool
  is_unsigned_setup p =
      p.header.command == Command.session_setup
      && (not (p.header.status == 0) || bit_and p.header.flags Flags.server_to_redir == 0)

  unfoldable pub add_signature : Context → Keys → Pdu → Status × Pdu
  add_signature c keys p = elim p.out.iov [
    | [] ↦ if is_unsigned_setup p then (ok, p) else (fail, p)
    | iov0 ∷ [] ↦ if is_unsigned_setup p then (ok, p) else (fail, p)
    | iov0 ∷ second ∷ ios ↦
        if is_unsigned_setup p
        then (ok, p)
        else (if not (iov0.len == header_size)
            then (fail, p)
            else (if c.session_id == 0
                then (ok, p)
                else (if keys.session_key_size == 0
                    then (fail, p)
                    else (ok, sign_with c keys p iov0 (second ∷ ios)))))
  ]

-- `smb2_pdu_check_signature` accepts whatever it is given.
unfoldable pub check_signature : Context → Pdu → Status
check_signature c p = ok
