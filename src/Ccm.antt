-- ===== src/Ccm.antt =====
-- Sources/CSMB/lib/aes128ccm.c: AES-CCM, which seals messages. The block cipher `ecb`, of a key and a
-- block, is a copy of another project, and a parameter here. A nonce has 11 bytes, a tag 16, and the
-- lengths are below 2^16 for the associated data and 2^32 for the text.
pub mod Open
mod Tests
use photo_transfer_nativesmb.Common.{
  ℕ, zero, suc, ◌+◌, ◌-◌, ◌*◌, ◌/◌, ◌%◌, ◌^◌, List, [], ◌∷◌, ◌++◌, ◌==◌, if◌then◌else◌, bit_and,
  bit_or, replicate, length,
}
use photo_transfer_nativesmb.Wire.{Status, ok, fail, put_bytes, get_bytes}
use photo_transfer_nativesmb.Header.{same_bytes}
use photo_transfer_nativesmb.Socket.{take, drop, big_endian32}
use photo_transfer_nativesmb.Signing.{xor}

-- `memset(b, 0, 16)` and a copy of at most 16 bytes.
abbrev pub block : List ℕ → List ℕ
block p = put_bytes (replicate 16 0) 0 (take 16 p)

unfoldable pub generate_b0 : List ℕ → ℕ → ℕ → ℕ → List ℕ
generate_b0 nonce alen plen mlen =
    let adata = if alen == 0 then 0 else 0x40 in
    let flags =
      bit_or (bit_or adata (bit_and ((mlen - 2) / 2 * 2 ^ 3) 0x38))
        (bit_and (15 - length nonce - 1) 0x07) in
    put_bytes (put_bytes (flags ∷ replicate 15 0) 12 (big_endian32 plen)) 1 nonce

module _ (ecb : List ℕ → List ℕ → List ℕ) where
  -- `while (plen)`, with fuel: each round takes a byte at least.
  unfoldable pub absorb : ℕ → List ℕ → List ℕ → List ℕ → List ℕ
  absorb zero key y p = y
  absorb (suc fuel) key y p =
      let rest = absorb fuel key (ecb key (xor (block p) y)) (drop 16 p) in
      if length p == 0 then y else rest

  -- The first block of associated data starts with its length.
  unfoldable pub absorb_aad : List ℕ → List ℕ → List ℕ → List ℕ
  absorb_aad key y aad =
      let alen = length aad in
      let first = put_bytes (replicate 16 0) 0 (alen / 2 ^ 8 % 256 ∷ alen % 256 ∷ take 14 aad) in
      if alen == 0 then y else absorb alen key (ecb key (xor first y)) (drop 14 aad)

  unfoldable pub generate_t : List ℕ → List ℕ → List ℕ → List ℕ → ℕ → List ℕ
  generate_t key nonce aad p mlen =
      let y = ecb key (generate_b0 nonce (length aad) (length p) mlen) in
      get_bytes mlen (absorb (length p) key (absorb_aad key y aad) p) 0

  unfoldable pub generate_s : List ℕ → List ℕ → ℕ → List ℕ
  generate_s key nonce i =
      let flags = bit_and (15 - length nonce - 1) 0x07 in
      ecb key (put_bytes (put_bytes (flags ∷ replicate 15 0) 12 (big_endian32 i)) 1 nonce)

  -- `while (plen)` from block `j` on, with fuel as above.
  unfoldable pub ccm_crypt : ℕ → List ℕ → List ℕ → ℕ → List ℕ → List ℕ
  ccm_crypt zero key nonce j p = p
  ccm_crypt (suc fuel) key nonce j p =
      let rest = ccm_crypt fuel key nonce (j + 1) (drop 16 p) in
      if length p == 0 then p else xor (take 16 p) (generate_s key nonce (j + 1)) ++ rest

  unfoldable pub ccm_tag : List ℕ → List ℕ → List ℕ → List ℕ → ℕ → List ℕ
  ccm_tag key nonce aad p mlen = xor (generate_t key nonce aad p mlen) (generate_s key nonce 0)

  -- The sealed text and the tag.
  unfoldable pub ccm_encrypt : List ℕ → List ℕ → List ℕ → List ℕ → ℕ → List ℕ × List ℕ
  ccm_encrypt key nonce aad p mlen =
      (ccm_crypt (length p) key nonce 0 p, ccm_tag key nonce aad p mlen)

  -- Whether the tag is right, and the opened text.
  unfoldable pub ccm_decrypt : List ℕ → List ℕ → List ℕ → List ℕ → List ℕ → Status × List ℕ
  ccm_decrypt key nonce aad p m =
      let opened = ccm_crypt (length p) key nonce 0 p in
      let tag = ccm_tag key nonce aad opened (length m) in
      (if same_bytes tag m then ok else fail, opened)
