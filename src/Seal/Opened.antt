-- ===== src/Seal/Opened.antt =====
-- What smb3_encrypt_pdu seals, smb3_decrypt_pdu opens and goes on to read.
use photo_transfer_nativesmb.Common.{
  suc, Option, ℕ, ◌≡◌, refl, sym, ap, ◌∙◌, List, ◌∷◌, ◌++◌, length, some, arith, true, inl, inr,
  replicate,
}
use photo_transfer_nativesmb.Wire.{Status, ok, put_bytes, get_bytes}
use photo_transfer_nativesmb.Smb2.{Pdu, Context}
use photo_transfer_nativesmb.Socket.{take, drop, joined, vectors, chain_len}
use photo_transfer_nativesmb.Asn1.Output.{length-put_bytes, get_bytes-put_bytes}
use photo_transfer_nativesmb.Ccm.{ccm_encrypt, ccm_decrypt}
use photo_transfer_nativesmb.Ccm.Open.{ccm_decrypt-ccm_encrypt, split_at}
use photo_transfer_nativesmb.Commands.Lookup.{get_or-put_bytes_ne, get_bytes_same, write_fields_len}
use photo_transfer_nativesmb.Receive.Heading.{Environment, Result}
use photo_transfer_nativesmb.Receive.State.{Receiver, Vector, vector_bytes}
use photo_transfer_nativesmb.Receive.Loop.{
  last_two, decrypt_pdu, open_sealed, read_from_buf, if_opened,
}
use photo_transfer_nativesmb.Seal.{transform_header, transform_fields, encrypt_pdu}

transform_header_size :
    (len : ℕ) (nonce : List ℕ) (session_id : ℕ)
    → length (transform_header len nonce session_id) ≡ 52
unfolding transform_header
transform_header_size len nonce session_id =
    (write_fields_len (record { buf = replicate 52 0; len = 52 })
      (transform_fields len nonce session_id)).1

-- A header of 52 bytes with a tag, before a sealed text.
module _ (heading tag : List ℕ) (size : length heading ≡ 52) (tag_size : length tag ≡ 16) where
  tagged : List ℕ
  tagged = put_bytes heading 4 tag

  tagged_size : length (put_bytes heading 4 tag) ≡ 52
  tagged_size = length-put_bytes heading 4 tag ∙ size

  -- The tag does not touch what stands behind it.
  behind_tag : (n : ℕ) → get_bytes n (put_bytes heading 4 tag) 20 ≡ get_bytes n heading 20
  behind_tag n =
      get_bytes_same n 20 (put_bytes heading 4 tag) heading
        (λ j l u. get_or-put_bytes_ne heading 4 tag j (inr (omega (arith, l, tag_size))))

  tag_there : get_bytes 16 (put_bytes heading 4 tag) 4 ≡ tag
  tag_there =
      ap (λ (n : ℕ). get_bytes n (put_bytes heading 4 tag) 4) (sym tag_size)
      ∙ get_bytes-put_bytes heading 4 tag (omega (arith, size, tag_size))

  opened_back :
      (ecb : List ℕ → List ℕ → List ℕ) (key sealed plain : List ℕ)
      → ccm_decrypt ecb key (get_bytes 11 heading 20) (get_bytes 32 heading 20) sealed tag
        ≡ (ok, plain)
      → ccm_decrypt ecb key
          (get_bytes 11 (put_bytes heading 4 tag) 20)
          (get_bytes 32 (put_bytes heading 4 tag) 20)
          sealed
          (get_bytes 16 (put_bytes heading 4 tag) 4)
        ≡ (ok, plain)
  opened_back ecb key sealed plain e = rw (behind_tag 11, behind_tag 32, tag_there) e

-- The receiver's last two vectors hold a transform header and a sealed text.
pub record HasFrame (r : Receiver) (v w : Vector) (crypt : List ℕ) : Type 0 where
  pub last : last_two r.iov ≡ some (v, w)
  pub heading : vector_bytes r v ≡ take 52 crypt
  pub text : take w.len (vector_bytes r w) ≡ drop 52 crypt

-- Where the tag is right, what was opened is read.
opening :
    (env : Environment) (decrypt : Receiver → Result × Receiver) (r : Receiver) (v w : Vector)
    (heading text plain : List ℕ)
    → vector_bytes r v ≡ heading
    → take w.len (vector_bytes r w) ≡ text
    → ccm_decrypt env.ecb env.serverout_key
        (get_bytes 11 heading 20)
        (get_bytes 32 heading 20)
        text
        (get_bytes 16 heading 4)
      ≡ (ok, plain)
    → open_sealed (some (v, w)) env decrypt r ≡ read_from_buf env decrypt r plain
unfolding open_sealed
opening env decrypt r v w heading text plain h t e =
    let here : ccm_decrypt env.ecb env.serverout_key (get_bytes 11 (vector_bytes r v) 20)
          (get_bytes 32 (vector_bytes r v) 20) (take w.len (vector_bytes r w))
          (get_bytes 16 (vector_bytes r v) 4)
        ≡ (ok, plain) =
      rw (h, t) e in
    ap (λ (x : Status × List ℕ). if_opened x.0 (read_from_buf env decrypt r x.1) (Result.failed, r))
      here

module _ (env : Environment) (c : Context) (nonce : List ℕ) (p : Pdu) (chain : List Pdu) where
  abbrev plain : List ℕ
  plain = joined (vectors (p ∷ chain))

  abbrev header : List ℕ
  header = transform_header (chain_len (p ∷ chain)) nonce c.session_id

  abbrev sealed : List ℕ × List ℕ
  sealed =
      ccm_encrypt env.ecb env.serverout_key (get_bytes 11 header 20) (get_bytes 32 header 20) plain
        16

  crypt_parts :
      c.seal ≡ true
      → p.seal ≡ true
      → (encrypt_pdu env.ecb env.serverout_key c nonce p chain).crypt
        ≡ put_bytes header 4 sealed.1 ++ sealed.0
  unfolding encrypt_pdu
  crypt_parts cs ps = rw (cs, ps) refl

  open_sealed-encrypt_pdu :
      (decrypt : Receiver → Result × Receiver) (r : Receiver) (v w : Vector)
      → c.seal ≡ true
      → p.seal ≡ true
      → HasFrame r v w (encrypt_pdu env.ecb env.serverout_key c nonce p chain).crypt
      → open_sealed (some (v, w)) env decrypt r
        ≡ read_from_buf env decrypt r (joined (vectors (p ∷ chain)))
  open_sealed-encrypt_pdu decrypt r v w cs ps f =
      let size = transform_header_size (chain_len (p ∷ chain)) nonce c.session_id in
      let sound =
        ccm_decrypt-ccm_encrypt env.ecb env.serverout_key (get_bytes 11 header 20)
          (get_bytes 32 header 20) plain 16 in
      let parts = crypt_parts cs ps in
      let (front, back) =
        split_at 52 (put_bytes header 4 sealed.1) sealed.0
          (inl (tagged_size header sealed.1 size (sound.2))) in
      let heading : vector_bytes r v ≡ put_bytes header 4 sealed.1 =
        f.heading ∙ ap (λ (q : List ℕ). take 52 q) parts ∙ front in
      let text : take w.len (vector_bytes r w) ≡ sealed.0 =
        f.text ∙ ap (λ (q : List ℕ). drop 52 q) parts ∙ back in
      let opened =
        opened_back header sealed.1 size (sound.2) env.ecb env.serverout_key sealed.0 plain
          (sound.0) in
      opening env decrypt r v w (put_bytes header 4 sealed.1) sealed.0 plain heading text opened

  -- A chain of PDUs that `smb3_encrypt_pdu` seals, with any nonce and any block cipher, is opened by a
  -- receiver that has the sender's key: when its last two vectors hold the transform header and the
  -- sealed text, `smb3_decrypt_pdu` accepts the tag and reads on from the bytes of the chain. The
  -- session and the PDU are those that seal.
  pub decrypt_pdu-encrypt_pdu :
      (fuel : ℕ) (r : Receiver) (v w : Vector)
      → c.seal ≡ true
      → p.seal ≡ true
      → HasFrame r v w (encrypt_pdu env.ecb env.serverout_key c nonce p chain).crypt
      → decrypt_pdu (suc fuel) env r
        ≡ read_from_buf env (decrypt_pdu fuel env) r (joined (vectors (p ∷ chain)))
  unfolding decrypt_pdu
  decrypt_pdu-encrypt_pdu fuel r v w cs ps f =
      ap (λ (o : Option (Vector × Vector)). open_sealed o env (decrypt_pdu fuel env) r) (f.last)
      ∙ open_sealed-encrypt_pdu (decrypt_pdu fuel env) r v w cs ps f
