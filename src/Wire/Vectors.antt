-- ===== src/Wire/Vectors.antt =====
-- Sources/CSMB/lib/init.c: the I/O vectors of a PDU (smb2_add_iovector, smb2_free_iovector), and
-- the padding to eight bytes of Sources/CSMB/lib/pdu.c (smb2_pad_to_64bit).
use photo_transfer_nativesmb.Common.{
  ℕ, ◌+◌, ◌-◌, ◌%◌, ◌^◌, ◌≤◌, ◌<◌, ◌≡◌, refl, ◌⊎◌, List, [], ◌∷◌, ◌++◌, length, length-append,
  replicate, ltb, ◌==◌, if◌then◌else◌, Option, none, some, arith, bit_and, inl, inr, lt→ltb,
}
use photo_transfer_nativesmb.Common.Bits.{bit_and_mask}
use native.Mathlib.Decide.{dec_lt}
use photo_transfer_nativesmb.Wire.{Iovec, Status, ok, fail}

-- `struct smb2_io_vectors`; the list holds the first `niov` entries of the array.
pub record IoVectors : Type 0 where
  pub num_done : ℕ
  pub total_size : ℕ
  pub iov : List Iovec

abbrev pub max_vectors : ℕ
max_vectors = 256

-- `NULL` is `none`: the array is full, and nothing is changed.
unfoldable pub add_iovector : IoVectors → Iovec → Option IoVectors
add_iovector v io =
    if ltb (length v.iov) max_vectors
    then some (record v { total_size = (v.total_size + io.len) % 2 ^ 64; iov = v.iov ++ (io ∷ []) })
    else none

unfoldable pub free_iovector : IoVectors → IoVectors
free_iovector v = record { num_done = 0; total_size = 0; iov = [] }

-- The sum that the loop of `smb2_pad_to_64bit` makes, before it is cut to an `int`.
unfoldable pub sum_len : List Iovec → ℕ
sum_len [] = 0
sum_len (io ∷ ios) = io.len + sum_len ios

-- `len` is an `int`: its low three bits are those of the sum, whatever wraps.
unfoldable pub pad_to_64bit : IoVectors → Status × IoVectors
pad_to_64bit v =
    let len = sum_len v.iov % 2 ^ 32 in
    let gap = 8 - bit_and len 7 in
    if bit_and len 7 == 0
    then (ok, v)
    else elim (add_iovector v (record { buf = replicate 7 0; len = gap })) [
      | none ↦ (fail, v)
      | some v' ↦ (ok, v')
    ]

-- What `niov`, the array and `total_size` mean together.
pub record IsWf (v : IoVectors) : Type 0 where
  pub room : length v.iov ≤ max_vectors
  pub sized : v.total_size ≡ sum_len v.iov % 2 ^ 64

sum_len-append : (xs ys : List Iovec) → sum_len (xs ++ ys) ≡ sum_len xs + sum_len ys
unfolding sum_len
sum_len-append [] ys = omega arith
sum_len-append (x ∷ xs) ys = omega (arith, sum_len-append xs ys)

-- `smb2_add_iovector` puts one vector behind the others and counts its bytes, or refuses because
-- there are 256 of them; the vectors stay well formed.
pub add_iovector-IsWf :
    (v : IoVectors) (io : Iovec)
    → IsWf v
    → ((v' : IoVectors) × (add_iovector v io ≡ some v')
        × IsWf v'
        × (v'.iov ≡ v.iov ++ (io ∷ []))
        × (v'.num_done ≡ v.num_done))
      ⊎ (length v.iov ≡ max_vectors) × (add_iovector v io ≡ none)
unfolding add_iovector
add_iovector-IsWf v io w = elim (dec_lt (length v.iov) max_vectors) [
  | yes room ↦ inl (_, rw (lt→ltb _ _ room) refl, one_more room, refl, refl)
  | no full ↦ inr (omega arith, ground arith)
]
  where
    one_more :
        length v.iov < max_vectors
        → IsWf
            (record v { total_size = (v.total_size + io.len) % 2 ^ 64; iov = v.iov ++ (io ∷ []) })
    one_more room = record {
      room = rw length-append (omega arith);
      sized = rw sum_len-append (unfold sum_len in omega arith);
    }

-- After `smb2_pad_to_64bit` has returned 0 the lengths of the vectors add up to a multiple of 8,
-- and at most seven bytes were added behind the vectors there were; it fails only if 256 vectors
-- were there already, and then changes nothing.
pub pad_to_64bit_aligned :
    (v : IoVectors)
    → IsWf v
    → let (s, v') = pad_to_64bit v in
      IsWf v'
      × ((s ≡ ok)
            × (sum_len v'.iov % 8 ≡ 0)
            × (sum_len v.iov ≤ sum_len v'.iov)
            × (sum_len v'.iov < sum_len v.iov + 8)
          ⊎ (s ≡ fail) × (v' ≡ v) × (length v.iov ≡ max_vectors))
unfolding pad_to_64bit sum_len
pad_to_64bit_aligned v w = ground (
  arith,
  bit_and_mask 3 (sum_len v.iov % 2 ^ 32) 7 refl,
  add_iovector-IsWf v (record { buf = replicate 7 0; len = 8 - bit_and (sum_len v.iov % 2 ^ 32) 7 })
      w,
  sum_len-append v.iov
      (record { buf = replicate 7 0; len = 8 - bit_and (sum_len v.iov % 2 ^ 32) 7 } ∷ []),
)
