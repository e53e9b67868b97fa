-- ===== src/Seal.antt =====
-- Sources/CSMB/lib/smb3-seal.c: smb3_encrypt_pdu. Its counterpart, smb3_decrypt_pdu, is in Receive,
-- since it goes on to read what it has opened.
pub mod Opened
mod Tests
use photo_transfer_nativesmb.Common.{ℕ, ◌%◌, ◌^◌, List, [], ◌∷◌, ◌++◌, if◌then◌else◌}
use photo_transfer_nativesmb.Wire.{put_bytes, get_bytes}
use photo_transfer_nativesmb.Smb2.{Pdu, Context}
use photo_transfer_nativesmb.Socket.{joined, vectors, chain_len}
use photo_transfer_nativesmb.Ccm.{ccm_encrypt}
use photo_transfer_nativesmb.Commands.Fields.{Field, uint, bytes, body}
use photo_transfer_nativesmb.Receive.Heading.{transform_sign, transform_size}

abbrev pub aes128_ccm : ℕ
aes128_ccm = 1

-- The transform header, whose signature is written last.
abbrev pub transform_fields : ℕ → List ℕ → ℕ → List Field
transform_fields len nonce session_id =
    bytes 4 0 transform_sign
    ∷ bytes 11 20 nonce
    ∷ uint 4 36 (len % 2 ^ 32)
    ∷ uint 2 42 aes128_ccm
    ∷ uint 8 44 session_id
    ∷ []

unfoldable pub transform_header : ℕ → List ℕ → ℕ → List ℕ
unfolding body
transform_header len nonce session_id =
    (body transform_size (transform_fields len nonce session_id)).buf

-- `nonce` is the eleven bytes of `random()`. The header and the sealed text are one buffer, of the
-- transform header's size and the lengths of all vectors.
unfoldable pub encrypt_pdu :
    (List ℕ → List ℕ → List ℕ) → List ℕ → Context → List ℕ → Pdu → List Pdu → Pdu
unfolding transform_header ccm_encrypt put_bytes get_bytes joined vectors chain_len
encrypt_pdu ecb serverin_key c nonce p chain =
    let heading = transform_header (chain_len (p ∷ chain)) nonce c.session_id in
    let (sealed, tag) =
      ccm_encrypt ecb serverin_key (get_bytes 11 heading 20) (get_bytes 32 heading 20)
        (joined (vectors (p ∷ chain))) 16 in
    if c.seal
    then (if p.seal then record p { crypt = put_bytes heading 4 tag ++ sealed } else p)
    else p
