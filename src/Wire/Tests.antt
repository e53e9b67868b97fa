-- ===== src/Wire/Tests.antt =====
-- Runs of the accessors and the vectors, and their theorems at concrete inputs.
use photo_transfer_nativesmb.Common.{
  ◌+◌, ◌≤◌, ◌<◌, ◌≡◌, refl, ◌⊎◌, [], ◌∷◌, length, some, none, arith,
}
use photo_transfer_nativesmb.Wire.{
  Iovec, ok, fail, set_uint, get_uint, set_uint32, get_uint32, put_le,
}
use photo_transfer_nativesmb.Wire.Access.{get_uint-set_uint_self}
use photo_transfer_nativesmb.Wire.Vectors.{
  IoVectors, IsWf, max_vectors, add_iovector, sum_len, add_iovector-IsWf,
}

abbrev six : Iovec
six = record { buf = 1 ∷ 2 ∷ 3 ∷ 4 ∷ 5 ∷ 6 ∷ []; len = 6 }

little_endian :
    set_uint32 six 2 0x0a0b0c0d
    ≡ (ok, record { buf = 1 ∷ 2 ∷ 0x0d ∷ 0x0c ∷ 0x0b ∷ 0x0a ∷ []; len = 6 })
unfolding set_uint32 put_le
little_endian = refl

past_the_end : (set_uint32 six 3 7 ≡ (fail, six)) × (get_uint32 six 3 ≡ none)
unfolding set_uint32 get_uint32
past_the_end = (refl, refl)

get_uint-set_uint_self_example :
    let (s, iov') = set_uint 2 six 4 0xbeef in
    (iov'.len ≡ 6)
    × (length iov'.buf ≡ 6)
    × ((4 + 2 ≤ 6) × (s ≡ ok) × (get_uint 2 iov' 4 ≡ some 0xbeef)
        ⊎ (6 < 4 + 2) × (s ≡ fail) × (iov' ≡ six) × (get_uint 2 iov' 4 ≡ none))
get_uint-set_uint_self_example = get_uint-set_uint_self 2 six 4 0xbeef (omega arith) (omega arith)

abbrev one_vector : IoVectors
one_vector = record { num_done = 0; total_size = 6; iov = six ∷ [] }

one_vector-IsWf : IsWf one_vector
unfolding sum_len
one_vector-IsWf = omega arith

add_iovector-IsWf_example :
    ((v' : IoVectors) × (add_iovector one_vector six ≡ some v')
      × IsWf v'
      × (v'.iov ≡ six ∷ six ∷ [])
      × (v'.num_done ≡ 0))
    ⊎ (1 ≡ max_vectors) × (add_iovector one_vector six ≡ none)
add_iovector-IsWf_example = add_iovector-IsWf one_vector six one_vector-IsWf
