-- ===== src/Ccm/Open.antt =====
-- What aes128ccm_encrypt seals, aes128ccm_decrypt opens, for every block cipher.
use photo_transfer_nativesmb.Common.{
  ℕ, zero, suc, ◌+◌, ◌≤◌, ◌<◌, ◌≡◌, refl, sym, ap, ◌∙◌, List, [], ◌∷◌, ◌++◌, length, length-append,
  arith, true, ◌⊎◌, inl, inr,
}
use mathlib.Core.Path.{ap₂}
use photo_transfer_nativesmb.Common.Bits.{bit_xor_twice}
use photo_transfer_nativesmb.Wire.{ok}
use photo_transfer_nativesmb.Header.{same_bytes}
use photo_transfer_nativesmb.Socket.{take, drop}
use photo_transfer_nativesmb.Socket.Frame.{take-drop, length-drop}
use photo_transfer_nativesmb.Signing.{xor}
use photo_transfer_nativesmb.Signing.Bytes.{length-get_bytes}
use photo_transfer_nativesmb.Ccm.{
  generate_s, generate_t, ccm_crypt, ccm_tag, ccm_encrypt, ccm_decrypt,
}

length-xor : (p s : List ℕ) → length (xor p s) ≡ length p
unfolding xor
length-xor [] s = refl
length-xor (b ∷ p) [] = refl
length-xor (b ∷ p) (w ∷ s) = ap suc (length-xor p s)

xor_twice : (p s : List ℕ) → xor (xor p s) s ≡ p
unfolding xor
xor_twice [] s = refl
xor_twice (b ∷ p) [] = refl
xor_twice (b ∷ p) (w ∷ s) = ap₂ ◌∷◌ (bit_xor_twice b w) (xor_twice p s)

same_bytes_refl : (xs : List ℕ) → same_bytes xs xs ≡ true
unfolding same_bytes
same_bytes_refl [] = refl
same_bytes_refl (x ∷ xs) = ground (arith, same_bytes_refl xs)

length_zero : (xs : List ℕ) → length xs ≡ 0 → xs ≡ []
length_zero [] h = refl
length_zero (x ∷ xs) h = absurd (omega (arith, h))

take_whole : (n : ℕ) (xs : List ℕ) → length xs ≤ n → take n xs ≡ xs
unfolding take
take_whole zero [] h = refl
take_whole zero (x ∷ xs) h = absurd (omega arith)
take_whole (suc n) [] h = refl
take_whole (suc n) (x ∷ xs) h = ap (λ ys. x ∷ ys) (take_whole n xs (omega arith))

-- A list in two parts, of which the first has `n` members or is all there is.
pub split_at :
    (n : ℕ) (xs ys : List ℕ)
    → (length xs ≡ n) ⊎ ((length xs ≤ n) × (ys ≡ []))
    → (take n (xs ++ ys) ≡ xs) × (drop n (xs ++ ys) ≡ ys)
unfolding take drop
split_at zero [] ys h = (refl, refl)
split_at zero (x ∷ xs) ys h = absurd (ground (arith, h))
split_at (suc n) [] ys h = ground (arith, h)
split_at (suc n) (x ∷ xs) ys (inl h) =
    let (a, b) = split_at n xs ys (inl (omega (arith, h))) in (ap (λ zs. x ∷ zs) a, b)
split_at (suc n) (x ∷ xs) ys (inr (h, e)) =
    let (a, b) = split_at n xs ys (inr (omega (arith, h), e)) in (ap (λ zs. x ∷ zs) a, b)

module _ (ecb : List ℕ → List ℕ → List ℕ) (key nonce : List ℕ) where
  ccm_crypt_round :
      (n j : ℕ) (p : List ℕ)
      → 0 < length p
      → ccm_crypt ecb (suc n) key nonce j p
        ≡ xor (take 16 p) (generate_s ecb key nonce (j + 1))
          ++ ccm_crypt ecb n key nonce (j + 1) (drop 16 p)
  unfolding ccm_crypt
  ccm_crypt_round n j p h = ground arith

  -- The stream of keys is applied to as many bytes as there are, and undoes itself.
  ccm_crypt_twice :
      (n j : ℕ) (p : List ℕ)
      → length p ≤ n
      → (length (ccm_crypt ecb n key nonce j p) ≡ length p)
        × (ccm_crypt ecb n key nonce j (ccm_crypt ecb n key nonce j p) ≡ p)
  unfolding ccm_crypt
  ccm_crypt_twice zero j p h = (refl, refl)
  ccm_crypt_twice (suc n) j [] h = (refl, refl)
  ccm_crypt_twice (suc n) j (x ∷ q) h =
      let p : List ℕ = x ∷ q in
      let s = generate_s ecb key nonce (j + 1) in
      let head = xor (take 16 p) s in
      let more = ccm_crypt ecb n key nonce (j + 1) (drop 16 p) in
      let dropped = length-drop 16 p in
      let (size, back) = ccm_crypt_twice n (j + 1) (drop 16 p) (omega (arith, dropped, h)) in
      let parts : length (take 16 p) + length (drop 16 p) ≡ length p =
        sym (length-append (take 16 p) (drop 16 p)) ∙ ap length (take-drop 16 p) in
      let head_size = length-xor (take 16 p) s in
      let whole : length (head ++ more) ≡ length p =
        length-append head more ∙ omega (arith, head_size, size, parts) in
      let cases : (length head ≡ 16) ⊎ ((length head ≤ 16) × (length more ≡ 0)) =
        omega (arith, head_size, size, parts, dropped) in
      let (front, behind) = split_cases head more cases in
      let once = ccm_crypt_round n j p (omega arith) in
      let again = ccm_crypt_round n j (head ++ more) (omega (arith, whole)) in
      let undone : xor (take 16 (head ++ more)) s
            ++ ccm_crypt ecb n key nonce (j + 1) (drop 16 (head ++ more))
          ≡ p =
        ap₂ (λ (a b : List ℕ). xor a s ++ ccm_crypt ecb n key nonce (j + 1) b) front behind
        ∙ ap₂ (λ (a b : List ℕ). a ++ b) (xor_twice (take 16 p) s) back
        ∙ take-drop 16 p in
      (ap length once ∙ whole, ap (ccm_crypt ecb (suc n) key nonce j) once ∙ again ∙ undone)
    where
      split_cases :
          (xs ys : List ℕ)
          → (length xs ≡ 16) ⊎ ((length xs ≤ 16) × (length ys ≡ 0))
          → (take 16 (xs ++ ys) ≡ xs) × (drop 16 (xs ++ ys) ≡ ys)
      split_cases xs ys (inl a) = split_at 16 xs ys (inl a)
      split_cases xs ys (inr (a, b)) = split_at 16 xs ys (inr (a, length_zero ys b))

  tag_length : (aad p : List ℕ) (mlen : ℕ) → length (ccm_tag ecb key nonce aad p mlen) ≡ mlen
  unfolding ccm_tag generate_t
  tag_length aad p mlen =
      length-xor (generate_t ecb key nonce aad p mlen) (generate_s ecb key nonce 0)
      ∙ length-get_bytes mlen _ 0

  -- `aes128ccm_decrypt` accepts what `aes128ccm_encrypt` sealed with the same key, nonce and
  -- associated data, and opens it to the text that was sealed, whatever the block cipher is.
  pub ccm_decrypt-ccm_encrypt :
      (aad p : List ℕ) (mlen : ℕ)
      → let (sealed, tag) = ccm_encrypt ecb key nonce aad p mlen in
        (ccm_decrypt ecb key nonce aad sealed tag ≡ (ok, p))
        × (length sealed ≡ length p)
        × (length tag ≡ mlen)
  unfolding ccm_encrypt ccm_decrypt
  ccm_decrypt-ccm_encrypt aad p mlen =
      let (size, back) = ccm_crypt_twice (length p) 0 p (omega arith) in
      let sealed = ccm_crypt ecb (length p) key nonce 0 p in
      let opened : ccm_crypt ecb (length sealed) key nonce 0 sealed ≡ p =
        ap (λ n. ccm_crypt ecb n key nonce 0 sealed) size ∙ back in
      let tag_size = tag_length aad p mlen in
      let same = same_bytes_refl (ccm_tag ecb key nonce aad p mlen) in
      (rw (opened, tag_size, same) refl, size, tag_size)
