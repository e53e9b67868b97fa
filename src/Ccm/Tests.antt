-- ===== src/Ccm/Tests.antt =====
-- A text of eighteen bytes, sealed and opened with the sum by digits in place of the cipher.
use photo_transfer_nativesmb.Ccm.{
  generate_b0, absorb_aad, ccm_crypt, absorb, generate_s, generate_t, ccm_tag, ccm_encrypt,
  ccm_decrypt,
}
use photo_transfer_nativesmb.Socket.{drop, take}
use photo_transfer_nativesmb.Wire.{put_bytes, get_bytes, ok, fail}
use photo_transfer_nativesmb.Header.{same_bytes}
use photo_transfer_nativesmb.Common.{ℕ, ◌≡◌, List, [], ◌∷◌, length, replicate, refl}
use photo_transfer_nativesmb.Signing.{xor}
use photo_transfer_nativesmb.Ccm.Open.{ccm_decrypt-ccm_encrypt}

abbrev toy : List ℕ → List ℕ → List ℕ
toy key block = xor block key

abbrev key : List ℕ
key = replicate 16 0x5a

abbrev nonce : List ℕ
nonce = replicate 11 3

abbrev text : List ℕ
text = replicate 18 7

ccm_decrypt-ccm_encrypt_example :
    let (sealed, tag) = ccm_encrypt toy key nonce (1 ∷ 2 ∷ []) text 16 in
    (ccm_decrypt toy key nonce (1 ∷ 2 ∷ []) sealed tag ≡ (ok, text))
    × (length sealed ≡ 18)
    × (length tag ≡ 16)
ccm_decrypt-ccm_encrypt_example = ccm_decrypt-ccm_encrypt toy key nonce (1 ∷ 2 ∷ []) text 16

-- A text that was changed under way is refused.
changed :
    let (sealed, tag) = ccm_encrypt toy key nonce (1 ∷ 2 ∷ []) text 16 in
    (ccm_decrypt toy key nonce (1 ∷ 2 ∷ []) (xor sealed (1 ∷ [])) tag).0 ≡ fail
unfolding ccm_encrypt ccm_decrypt same_bytes ccm_tag xor generate_t get_bytes generate_s put_bytes
    absorb ccm_crypt take drop absorb_aad generate_b0
changed = refl
