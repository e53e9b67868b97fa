-- ===== src/Signing/Mac.antt =====
-- A signed PDU carries the signature that is computed again from its bytes.
use photo_transfer_nativesmb.Common.{
  ℕ, ◌+◌, ◌^◌, ◌≤◌, ◌<◌, ◌≡◌, ◌≢◌, refl, sym, ap, ◌∙◌, List, ◌∷◌, length, arith, false, some, ltb,
  inl, inr, Bool_cases, replicate, bit_or, if◌then◌else◌,
}
use photo_transfer_nativesmb.Wire.{
  Iovec, ok, set_uint32, get_uint32, put_bytes, get_bytes, get_uint,
}
use photo_transfer_nativesmb.Wire.Access.{get_uint-set_uint_self}
use photo_transfer_nativesmb.Smb2.{Pdu, Context, header_size}
use photo_transfer_nativesmb.Smb2.Flags
use photo_transfer_nativesmb.Smb2.Dialect
use photo_transfer_nativesmb.Asn1.Output.{get_bytes-put_bytes, length-put_bytes}
use photo_transfer_nativesmb.Signing.{
  Keys, aes_cmac_128, combined, clear_signature, calc_signature, sign_with, is_unsigned_setup,
  add_signature,
}
use photo_transfer_nativesmb.Signing.Bytes.{
  put_bytes-put_bytes, length-get_bytes, get_uint-put_bytes,
}

module _ (ecb hmac : List ℕ → List ℕ → List ℕ) (c : Context) (keys : Keys) where
  abbrev mac : List ℕ → List ℕ
  mac msg =
      if ltb Dialect.v0210 c.dialect
      then get_bytes 16 (aes_cmac_128 ecb hmac keys.signing_key msg) 0
      else get_bytes 16 (hmac (get_bytes 16 keys.signing_key 0) msg) 0

  mac_size : (msg : List ℕ) → length (mac msg) ≡ 16
  mac_size msg = elim (Bool_cases (ltb Dialect.v0210 c.dialect)) [
    | inl e ↦ rw e (length-get_bytes 16 (aes_cmac_128 ecb hmac keys.signing_key msg) 0)
    | inr e ↦ rw e (length-get_bytes 16 (hmac (get_bytes 16 keys.signing_key 0) msg) 0)
  ]

  calc_signature_parts :
      (iov : List Iovec)
      → (calc_signature ecb hmac c keys iov).0
          ≡ mac (combined ecb hmac (clear_signature ecb hmac iov))
        × ((calc_signature ecb hmac c keys iov).1 ≡ clear_signature ecb hmac iov)
  unfolding calc_signature
  calc_signature_parts iov = elim (Bool_cases (ltb Dialect.v0210 c.dialect)) [
    | inl e ↦ rw e (refl, refl)
    | inr e ↦ rw e (refl, refl)
  ]

  -- The vectors with their signature field overwritten give the same signature.
  clear_signature_again :
      (io : Iovec) (ios : List Iovec) (sig : List ℕ)
      → length sig ≡ 16
      → let buf = put_bytes (put_bytes io.buf 48 (replicate 16 0)) 48 sig in
        clear_signature ecb hmac (record io { buf = buf } ∷ ios)
        ≡ clear_signature ecb hmac (io ∷ ios)
  unfolding clear_signature
  clear_signature_again io ios sig h =
      ap (λ (b : List ℕ). (record io { buf = b }) ∷ ios)
        (put_bytes-put_bytes (put_bytes io.buf 48 (replicate 16 0)) 48 sig (replicate 16 0) h
          ∙ put_bytes-put_bytes io.buf 48 (replicate 16 0) (replicate 16 0) refl)

  -- The PDU with the flag, and then with its signature.
  abbrev flagged : Pdu → Iovec → Iovec
  flagged p iov0 = (set_uint32 iov0 16 (bit_or p.header.flags Flags.signed)).1

  abbrev signature_of : Pdu → Iovec → List Iovec → List ℕ
  signature_of p iov0 ios =
      mac (combined ecb hmac (clear_signature ecb hmac (flagged p iov0 ∷ ios)))

  abbrev first_signed : Pdu → Iovec → List Iovec → Iovec
  first_signed p iov0 ios = record (flagged p iov0) {
    buf =
        put_bytes (put_bytes (flagged p iov0).buf 48 (replicate 16 0)) 48 (signature_of p iov0 ios);
  }

  sign_with_parts :
      (p : Pdu) (iov0 : Iovec) (ios : List Iovec)
      → sign_with ecb hmac c keys p iov0 ios ≡ record p {
        header = record p.header {
          flags = bit_or p.header.flags Flags.signed;
          signature = signature_of p iov0 ios;
        };
        out = record p.out { iov = first_signed p iov0 ios ∷ ios };
      }
  unfolding sign_with calc_signature clear_signature
  sign_with_parts p iov0 ios = elim (Bool_cases (ltb Dialect.v0210 c.dialect)) [
    | inl e ↦ ground (arith, e)
    | inr e ↦ ground (arith, e)
  ]

  first_signed_bytes :
      (p : Pdu) (iov0 : Iovec) (ios : List Iovec)
      → iov0.len ≡ header_size
      → header_size ≤ length iov0.buf
      → bit_or p.header.flags Flags.signed < 2 ^ 32
      → (get_uint32 (first_signed p iov0 ios) 16 ≡ some (bit_or p.header.flags Flags.signed))
        × (get_bytes 16 (first_signed p iov0 ios).buf 48 ≡ signature_of p iov0 ios)
  unfolding set_uint32 get_uint32
  first_signed_bytes p iov0 ios len room small =
      let flags = bit_or p.header.flags Flags.signed in
      let f = flagged p iov0 in
      let sig = signature_of p iov0 ios in
      let zeros : List ℕ = replicate 16 0 in
      let cleared : Iovec = record f { buf = put_bytes f.buf 48 zeros } in
      let size = mac_size (combined ecb hmac (clear_signature ecb hmac (f ∷ ios))) in
      let kept = get_uint-set_uint_self 4 iov0 16 flags (omega (arith, len, room)) small in
      let read : get_uint 4 f 16 ≡ some flags = ground (arith, kept, len) in
      let long : 48 + length sig ≤ length (put_bytes f.buf 48 zeros) =
        omega (arith, size, room, kept, length-put_bytes f.buf 48 zeros) in
      (
        get_uint-put_bytes 4 16 48 cleared sig (omega arith)
            ∙ get_uint-put_bytes 4 16 48 f zeros (omega arith)
            ∙ read,
        ap (λ n. get_bytes n (put_bytes cleared.buf 48 sig) 48) (sym size)
            ∙ get_bytes-put_bytes cleared.buf 48 sig long,
      )

  -- `smb2_pdu_add_signature` signs a PDU of a session that has a key, unless it belongs to the
  -- session's set-up: it marks the PDU as signed, in the header and in the bytes that are sent, and
  -- puts a signature behind the header's other bytes that `smb2_calc_signature` computes again from
  -- the bytes that are sent, for every cipher and digest.
  pub add_signature-calc_signature :
      (p : Pdu) (iov0 second : Iovec) (ios : List Iovec)
      → p.out.iov ≡ iov0 ∷ second ∷ ios
      → is_unsigned_setup ecb hmac p ≡ false
      → iov0.len ≡ header_size
      → header_size ≤ length iov0.buf
      → c.session_id ≢ 0
      → keys.session_key_size ≢ 0
      → bit_or p.header.flags Flags.signed < 2 ^ 32
      → let (s, p') = add_signature ecb hmac c keys p in
        (iov0' : Iovec) × (s ≡ ok)
        × (p'.out.iov ≡ iov0' ∷ second ∷ ios)
        × (p'.header.flags ≡ bit_or p.header.flags Flags.signed)
        × (get_uint32 iov0' 16 ≡ some p'.header.flags)
        × (get_bytes 16 iov0'.buf 48 ≡ p'.header.signature)
        × ((calc_signature ecb hmac c keys p'.out.iov).0 ≡ p'.header.signature)
  add_signature-calc_signature p iov0 second ios e u len room sid key small =
      let others = second ∷ ios in
      let is_signed : add_signature ecb hmac c keys p
          ≡ (ok, sign_with ecb hmac c keys p iov0 others) =
        unfold add_signature in ground (arith, e, u, len, sid, key) in
      let (field, behind) = first_signed_bytes p iov0 others len room small in
      let again : (calc_signature ecb hmac c keys (first_signed p iov0 others ∷ others)).0
          ≡ signature_of p iov0 others =
        (calc_signature_parts (first_signed p iov0 others ∷ others)).0
        ∙ ap (λ v. mac (combined ecb hmac v))
            (clear_signature_again (flagged p iov0) others (signature_of p iov0 others) (
              mac_size (combined ecb hmac (clear_signature ecb hmac (flagged p iov0 ∷ others))))) in
      rw (is_signed, sign_with_parts p iov0 others)
        (first_signed p iov0 others, refl, refl, refl, field, behind, again)
