-- ===== src/Socket/Frame.antt =====
-- Frames: the vectors that are still to be written spell the rest of the chain's frame.
use photo_transfer_nativesmb.Common.{
  ℕ, zero, suc, ◌+◌, ◌-◌, ◌^◌, ◌≤◌, ◌<◌, ◌≡◌, refl, sym, ap, ◌∙◌, List, [], ◌∷◌, ◌++◌, map, All,
  length, length-append, arith, inl, inr, Bool_cases, some, none, Option,
}
use mathlib.Core.List.{append_assoc}
use photo_transfer_nativesmb.Wire.{Iovec}
use photo_transfer_nativesmb.Wire.Access.{IsBacked}
use photo_transfer_nativesmb.Wire.Vectors.{sum_len}
use photo_transfer_nativesmb.Smb2.{Pdu}
use photo_transfer_nativesmb.Socket.{
  take, drop, joined, skip_done, vectors, chain_len, frame_len, bodies, fill_iov, gather, pending,
  big_endian32, spl_size,
}

pub take-drop : (n : ℕ) (xs : List ℕ) → take n xs ++ drop n xs ≡ xs
unfolding take drop
take-drop zero xs = refl
take-drop (suc n) [] = refl
take-drop (suc n) (x ∷ xs) = ap (λ ys. x ∷ ys) (take-drop n xs)

pub drop-drop : (m n : ℕ) (xs : List ℕ) → drop n (drop m xs) ≡ drop (m + n) xs
unfolding drop
drop-drop zero n xs = ap (λ k. drop k xs) (omega arith)
drop-drop (suc m) zero [] = let e : suc m + 0 ≡ suc m = omega arith in rw e refl
drop-drop (suc m) (suc n) [] = let e : suc m + suc n ≡ suc (m + suc n) = omega arith in rw e refl
drop-drop (suc m) n (x ∷ xs) =
    let e : suc m + n ≡ suc (m + n) = omega arith in rw e (drop-drop m n xs)

pub length-drop : (n : ℕ) (xs : List ℕ) → length (drop n xs) ≡ length xs - n
unfolding drop
length-drop zero xs = omega arith
length-drop (suc n) [] = omega arith
length-drop (suc n) (x ∷ xs) = omega (arith, length-drop n xs)

pub drop-length : (xs : List ℕ) → drop (length xs) xs ≡ []
unfolding drop
drop-length [] = refl
drop-length (x ∷ xs) = drop-length xs

pub drop_within : (n : ℕ) (v w : List ℕ) → n ≤ length v → drop n (v ++ w) ≡ drop n v ++ w
unfolding drop
drop_within zero v w h = refl
drop_within (suc n) [] w h = absurd (omega arith)
drop_within (suc n) (x ∷ v) w h = drop_within n v w (omega arith)

pub drop_past : (n : ℕ) (v w : List ℕ) → length v ≤ n → drop n (v ++ w) ≡ drop (n - length v) w
unfolding drop
drop_past n [] w h = ap (λ k. drop k w) (omega arith)
drop_past zero (x ∷ v) w h = absurd (omega arith)
drop_past (suc n) (x ∷ v) w h = drop_past n v w (omega arith) ∙ ap (λ k. drop k w) (omega arith)

drop_none : (n : ℕ) → drop n [] ≡ []
unfolding drop
drop_none zero = refl
drop_none (suc n) = refl

-- Skipping vectors skips bytes.
pub joined-skip_done : (n : ℕ) (vs : List (List ℕ)) → joined (skip_done n vs) ≡ drop n (joined vs)
unfolding joined skip_done
joined-skip_done n [] = sym (drop_none n)
joined-skip_done n (v ∷ vs) = ground (
  arith,
  joined-skip_done (n - length v) vs,
  drop_past n v (joined vs),
  drop_within n v (joined vs),
)

pub joined-append : (xs ys : List (List ℕ)) → joined (xs ++ ys) ≡ joined xs ++ joined ys
unfolding joined
joined-append [] ys = refl
joined-append (x ∷ xs) ys =
    ap (λ zs. x ++ zs) (joined-append xs ys) ∙ sym (append_assoc x (joined xs) (joined ys))

pub length-take : (n : ℕ) (xs : List ℕ) → n ≤ length xs → length (take n xs) ≡ n
unfolding take
length-take zero xs h = refl
length-take (suc n) [] h = absurd (omega arith)
length-take (suc n) (x ∷ xs) h = omega (arith, length-take n xs (omega arith))

-- The frame of a chain: its length, and what stands behind that.
unfoldable pub entries : Pdu → List Pdu → List (List ℕ)
entries p chain = big_endian32 (frame_len p chain) ∷ bodies p chain

unfoldable pub frame : Pdu → List Pdu → List ℕ
frame p chain = joined (entries p chain)

-- The bytes of the frame that are not written yet.
abbrev pub unwritten : Pdu → List Pdu → List ℕ
unwritten p chain = pending p.out.num_done (entries p chain)

pub pending-frame :
    (p : Pdu) (chain : List Pdu) → unwritten p chain ≡ drop p.out.num_done (frame p chain)
unfolding pending frame
pending-frame p chain = joined-skip_done p.out.num_done (entries p chain)

-- The array has room for the length and 255 vectors, those of every member are backed, and their
-- lengths add up to a uint32.
pub record IsFramed (p : Pdu) (chain : List Pdu) : Type 0 where
  pub few : length (bodies p chain) < 256
  pub backed : All (λ q. All IsBacked q.out.iov) (p ∷ chain)
  pub small : chain_len (p ∷ chain) < 2 ^ 32

vectors_length :
    (ios : List Iovec)
    → All IsBacked ios
    → length (joined (map (λ (io : Iovec). take io.len io.buf) ios)) ≡ sum_len ios
unfolding joined sum_len
vectors_length [] h = refl
vectors_length (io ∷ ios) (h, hs) = omega (
  arith,
  length-append (take io.len io.buf) (joined (map (λ (io : Iovec). take io.len io.buf) ios)),
  length-take io.len io.buf h,
  vectors_length ios hs,
)

chain_length :
    (chain : List Pdu)
    → All (λ q. All IsBacked q.out.iov) chain
    → length (joined (vectors chain)) ≡ chain_len chain
unfolding vectors chain_len joined
chain_length [] h = refl
chain_length (p ∷ chain) (h, hs) =
    let own = map (λ (io : Iovec). take io.len io.buf) p.out.iov in
    rw (joined-append own (vectors chain)) (
      omega (
        arith,
        length-append (joined own) (joined (vectors chain)),
        vectors_length p.out.iov h,
        chain_length chain hs,
      ))

fill_iov-few : (niov : ℕ) (vs : List (List ℕ)) → niov + length vs ≤ 256 → fill_iov niov vs ≡ some vs
unfolding fill_iov
fill_iov-few niov [] h = refl
fill_iov-few niov (v ∷ vs) h = ground (arith, fill_iov-few (niov + 1) vs (omega arith))

-- The whole frame fits the array.
pub gather-entries :
    (p : Pdu) (chain : List Pdu) → IsFramed p chain → gather p chain ≡ some (entries p chain)
unfolding gather entries
gather-entries p chain f =
    ap
      (λ (o : Option (List (List ℕ))). elim o [
        | none ↦ none
        | some iov ↦ some (big_endian32 (frame_len p chain) ∷ iov)
      ])
      (fill_iov-few 1 (bodies p chain) (omega (arith, f.few)))

-- The length in front of a frame is that of what follows.
pub length-frame :
    (p : Pdu) (chain : List Pdu)
    → IsFramed p chain
    → length (frame p chain) ≡ spl_size + frame_len p chain
unfolding frame frame_len entries bodies joined vectors chain_len
length-frame p chain h =
    let whole = chain_length (p ∷ chain) h.backed in
    elim (Bool_cases p.seal) [
      | inl e ↦ rw e (omega (arith, length-append p.crypt []))
      | inr e ↦ rw e (omega (arith, whole, h.small))
    ]
