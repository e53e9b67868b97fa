-- ===== src/Receive/Faults.antt =====
-- Sources/CSMB/lib/socket.c: where smb2_read_data leaves the memory that it has.
use photo_transfer_nativesmb.Common.{
  ap, Option, ◌∙◌, zero, inl, inr, length-append, ℕ, suc, ◌+◌, ◌-◌, ◌%◌, ◌^◌, ◌≤◌, ◌<◌, ◌≡◌, ◌⊎◌,
  ◌↔◌, refl, List, [], ◌∷◌, ◌++◌, Bool, true, length, arith, some, none, replicate,
}
use photo_transfer_nativesmb.Wire.{get_bytes}
use photo_transfer_nativesmb.Receive.State.{
  RecvState, Vector, at_heap, Receiver, is_all_read, vectors_len, add_vector, add_buffer,
}
use photo_transfer_nativesmb.Receive.Heading.{
  Result, Outcome, returns, Environment, take_transform, copy_bytes, shorten_last,
}
use photo_transfer_nativesmb.Receive.Kept.{receiver_of}
use photo_transfer_nativesmb.Receive.Loop.{Arrival, ready, read_data}

-- The skip loop runs off the end of the vectors when they are all read.
is_all_read_iff : (n : ℕ) (vs : List Vector) → (is_all_read n vs ≡ true) ↔ (vectors_len vs ≤ n)
unfolding is_all_read vectors_len
is_all_read_iff n [] = ground arith
is_all_read_iff n (v ∷ vs) = ground (arith, is_all_read_iff (n - v.len) vs)

pub read_data_fault :
    (env : Environment) (x : Bool) (decrypt : Receiver → Result × Receiver) (r : Receiver)
    (a : Arrival) (arrivals : List Arrival) (s : List ℕ)
    → vectors_len r.iov ≤ r.num_done
    → (read_data env x decrypt r (a ∷ arrivals) s).result ≡ Result.fault
unfolding read_data
read_data_fault env x decrypt r a arrivals s h = elim a [
  | ready n ↦ ground (arith, is_all_read_iff r.num_done r.iov)
  | Arrival.empty ↦ ground (arith, is_all_read_iff r.num_done r.iov)
  | Arrival.broken ↦ ground (arith, is_all_read_iff r.num_done r.iov)
]

length-shorten_last : (vs : List Vector) → length (shorten_last vs) ≡ length vs
unfolding shorten_last
length-shorten_last [] = refl
length-shorten_last (v ∷ []) = refl
length-shorten_last (v ∷ w ∷ vs) = ap suc (length-shorten_last (w ∷ vs))

vectors_len-append :
    (vs ws : List Vector) → vectors_len (vs ++ ws) ≡ vectors_len vs + vectors_len ws
unfolding vectors_len
vectors_len-append [] ws = omega arith
vectors_len-append (v ∷ vs) ws = omega (arith, vectors_len-append vs ws)

-- The return of a round, if it returns.
abbrev pub result_of : Outcome → Option Result
result_of (returns result _) = some result
result_of _ = none

copy_bytes_short : (n : ℕ) (src : List ℕ) → n < length src → copy_bytes (replicate n 0) src ≡ none
unfolding copy_bytes
copy_bytes_short n [] h = absurd (omega arith)
copy_bytes_short zero (x ∷ src) h = refl
copy_bytes_short (suc n) (x ∷ src) h =
    ap (λ (o : Option (List ℕ)). elim o [ none ↦ none | some b ↦ some (x ∷ b) ])
      (copy_bytes_short n src (omega arith))

copy_bytes_fits :
    (n : ℕ) (src : List ℕ)
    → length src ≤ n
    → copy_bytes (replicate n 0) src ≡ some (src ++ replicate (n - length src) 0)
unfolding copy_bytes
copy_bytes_fits n [] h = ap (λ k. some (replicate k 0)) (omega arith)
copy_bytes_fits zero (x ∷ src) h = absurd (omega arith)
copy_bytes_fits (suc n) (x ∷ src) h =
    ap (λ (o : Option (List ℕ)). elim o [ none ↦ none | some b ↦ some (x ∷ b) ])
      (copy_bytes_fits n src (omega arith))
    ∙ ap (λ k. some (x ∷ (src ++ replicate k 0))) (omega arith)

length-get_bytes : (n : ℕ) (b : List ℕ) (off : ℕ) → length (get_bytes n b off) ≡ n
unfolding get_bytes
length-get_bytes zero b off = refl
length-get_bytes (suc n) b off = ap suc (length-get_bytes n b (off + 1))

frame_cases :
    (n : ℕ)
    → n < 2 ^ 32
    → ((n < 52) ⊎ (2 ^ 31 + 52 ≤ n)) ⊎ (52 ≤ n) × (n < 64) ⊎ (64 ≤ n) × (n < 2 ^ 31 + 52)
frame_cases n h = omega arith

-- A transform header, with fewer than 256 vectors in use, fails in a frame of less than its own 52
-- bytes, or of 2^31 more. In a frame of 52 to 63 bytes the twelve bytes that were read behind it are
-- written past the end of the buffer for the sealed text. In others the machine waits for the sealed
-- text, in one vector more, of the frame's length less 52, that begins with those twelve bytes.
pub take_transform_cases :
    (r : Receiver)
    → r.spl < 2 ^ 32
    → length r.iov < 256
    → let o = take_transform r in
      ((r.spl < 52) ⊎ (2 ^ 31 + 52 ≤ r.spl)) × (result_of o ≡ some Result.failed)
      ⊎ (52 ≤ r.spl) × (r.spl < 64) × (result_of o ≡ some Result.fault)
      ⊎ (64 ≤ r.spl)
        × (r.spl < 2 ^ 31 + 52)
        × (result_of o ≡ none)
        × ((receiver_of o).recv_state ≡ RecvState.trfm)
        × (length (receiver_of o).iov ≡ length r.iov + 1)
        × (vectors_len (receiver_of o).iov ≡ vectors_len (shorten_last r.iov) + (r.spl - 52))
        × ((buf : List ℕ) × ((receiver_of o).iov
              ≡ shorten_last r.iov ++ (record { place = at_heap buf; len = r.spl - 52 } ∷ []))
            × (buf ≡ get_bytes 12 r.header_bytes 52 ++ replicate (r.spl - 64) 0))
unfolding take_transform add_buffer add_vector vectors_len
take_transform_cases r small room =
    let len = (r.spl + 2 ^ 32 - 52) % 2 ^ 32 in
    let src = get_bytes 12 r.header_bytes 52 in
    let twelve = length-get_bytes 12 r.header_bytes 52 in
    let same = length-shorten_last r.iov in
    elim (frame_cases r.spl small) [
      | inl bad ↦ inl (bad, ground (arith, bad, same))
      | inr (inl (lo, hi)) ↦ inr (
          inl (
            lo,
            hi,
            ground (arith, lo, hi, same, copy_bytes_short len src (omega (arith, twelve))),
          ))
      | inr (inr (lo, hi)) ↦
          let l : len ≡ r.spl - 52 = omega arith in
          let tail : r.spl - 52 - length src ≡ r.spl - 64 = omega (arith, twelve) in
          let buf = src ++ replicate (r.spl - 64) 0 in
          let copied : copy_bytes (replicate (r.spl - 52) 0) src ≡ some buf =
            rw tail at (copy_bytes_fits (r.spl - 52) src (omega (arith, twelve))) in
          let one : List Vector = record { place = at_heap buf; len = r.spl - 52 } ∷ [] in
          let lengths = length-append (shorten_last r.iov) one in
          let sums = vectors_len-append (shorten_last r.iov) one in
          inr (
            inr (
              lo,
              hi,
              ground (arith, l, lo, hi, same, copied),
              ground (arith, l, lo, hi, same, copied),
              ground (arith, l, lo, hi, same, copied, lengths),
              ground (arith, l, lo, hi, same, copied, sums),
              (buf, ground (arith, l, lo, hi, same, copied), refl),
            ))
    ]
