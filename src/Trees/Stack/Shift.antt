-- ===== src/Trees/Stack/Shift.antt =====
-- Parts of an array as lists: the search for an entry, and the loop that closes a gap.
use photo_transfer_nativesmb.Common.{
  ℕ, zero, suc, ◌+◌, ◌-◌, ◌<◌, ◌≡◌, refl, ap, ◌∙◌, ◌⊎◌, inl, inr, List, [], ◌∷◌, ◌++◌, length,
  length-set, get_or, get_or-set_self, get_or-set_ne, set, ◌==◌, if◌then◌else◌, true, false,
  Bool_cases, arith, Bool, ◌||◌, ==_iff,
}
use photo_transfer_nativesmb.Trees.{no_tree, shift_down}
use mathlib.Core.Path.{ap₂}

-- The `n` entries from index `i` on.
unfoldable pub slice : List ℕ → ℕ → ℕ → List ℕ
slice ids i zero = []
slice ids i (suc n) = get_or ids i no_tree ∷ slice ids (i + 1) n

-- The place of the first `id`, or the length.
unfoldable pub index_of : ℕ → List ℕ → ℕ
index_of id [] = 0
index_of id (x ∷ xs) = if x == id then 0 else index_of id xs + 1

unfoldable pub remove_first : ℕ → List ℕ → List ℕ
remove_first id [] = []
remove_first id (x ∷ xs) = if x == id then xs else x ∷ remove_first id xs

unfoldable pub contains : ℕ → List ℕ → Bool
contains id [] = false
contains id (x ∷ xs) = x == id || contains id xs

pub length-slice : (ids : List ℕ) (i n : ℕ) → length (slice ids i n) ≡ n
unfolding slice
length-slice ids i zero = refl
length-slice ids i (suc n) = ap suc (length-slice ids (i + 1) n)

pub index_of-contains :
    (id : ℕ) (xs : List ℕ)
    → (contains id xs ≡ true) × (index_of id xs < length xs)
      ⊎ (contains id xs ≡ false) × (index_of id xs ≡ length xs)
unfolding contains index_of
index_of-contains id [] = inr (refl, refl)
index_of-contains id (x ∷ xs) = ground (arith, index_of-contains id xs)

-- The entry that the search stops at is the one looked for.
pub get_or-slice :
    (ids : List ℕ) (id i n x : ℕ)
    → x ≡ i + index_of id (slice ids i n)
    → index_of id (slice ids i n) < n
    → get_or ids x no_tree ≡ id
unfolding slice index_of
get_or-slice ids id i zero x e h = absurd (omega arith)
get_or-slice ids id i (suc n) x e h = elim (Bool_cases (get_or ids i no_tree == id)) [
  | inl here ↦
      let e' : x ≡ i = omega (arith, rw here at e) in
      rw e' ((==_iff (get_or ids i no_tree) id).0 here)
  | inr other ↦
      let e' : x ≡ i + (index_of id (slice ids (i + 1) n) + 1) = rw other at e in
      let h' : index_of id (slice ids (i + 1) n) + 1 < suc n = rw other at h in
      get_or-slice ids id (i + 1) n x (omega arith) (omega arith)
]

pub length-shift_down : (m : ℕ) (ids : List ℕ) (j : ℕ) → length (shift_down m ids j) ≡ length ids
unfolding shift_down
length-shift_down zero ids j = refl
length-shift_down (suc m) ids j =
    length-shift_down m (set ids j (get_or ids (j + 1) no_tree)) (j + 1)
    ∙ length-set ids j (get_or ids (j + 1) no_tree)

-- Below the gap nothing moves, and from the gap on each entry takes its successor's value.
shift_down_below :
    (m : ℕ) (ids : List ℕ) (j x : ℕ)
    → x < j
    → get_or (shift_down m ids j) x no_tree ≡ get_or ids x no_tree
unfolding shift_down
shift_down_below zero ids j x h = refl
shift_down_below (suc m) ids j x h =
    shift_down_below m (set ids j (get_or ids (j + 1) no_tree)) (j + 1) x (omega arith)
    ∙ get_or-set_ne ids j x (get_or ids (j + 1) no_tree) no_tree (omega arith)

slice-set_below : (ids : List ℕ) (j v i n : ℕ) → j < i → slice (set ids j v) i n ≡ slice ids i n
unfolding slice
slice-set_below ids j v i zero h = refl
slice-set_below ids j v i (suc n) h =
    ap₂ ◌∷◌ (get_or-set_ne ids j i v no_tree (omega arith))
      (slice-set_below ids j v (i + 1) n (omega arith))

slice-shift_down :
    (m : ℕ) (ids : List ℕ) (j : ℕ)
    → j + m < length ids
    → slice (shift_down m ids j) j m ≡ slice ids (j + 1) m
unfolding slice shift_down
slice-shift_down zero ids j h = refl
slice-shift_down (suc m) ids j h =
    ap₂ ◌∷◌
      (shift_down_below m (set ids j (get_or ids (j + 1) no_tree)) (j + 1) j (omega arith)
        ∙ get_or-set_self ids j (get_or ids (j + 1) no_tree) no_tree (omega arith))
      (slice-shift_down m (set ids j (get_or ids (j + 1) no_tree)) (j + 1)
          (omega (arith, length-set ids j (get_or ids (j + 1) no_tree)))
        ∙ slice-set_below ids j (get_or ids (j + 1) no_tree) (j + 1 + 1) m (omega arith))

slice-shift_down_at :
    (m : ℕ) (ids : List ℕ) (j i n : ℕ)
    → j ≡ i
    → m ≡ n
    → i + n < length ids
    → slice (shift_down m ids j) i n ≡ slice ids (i + 1) n
slice-shift_down_at m ids j i n ej em h = rw (ej, em) (slice-shift_down n ids i h)

-- Closing the gap at the place of the first `id` removes it from the list.
removed :
    (ids : List ℕ) (id i p k m j : ℕ)
    → k ≡ index_of id (slice ids i (suc p))
    → p ≡ m + k
    → j ≡ i + k
    → i + p < length ids
    → slice (shift_down m ids j) i p ≡ remove_first id (slice ids i (suc p))
unfolding slice index_of remove_first
removed ids id i zero k m j e hp hj b = elim (Bool_cases (get_or ids i no_tree == id)) [
  | inl here ↦ rw here
  | inr other ↦ let e' : k ≡ 1 = rw other at e in absurd (omega arith)
]
removed ids id i (suc p) k m j e hp hj b = elim (Bool_cases (get_or ids i no_tree == id)) [
  | inl here ↦
      let e' : k ≡ 0 = rw here at e in
      rw here (slice-shift_down_at m ids j i (suc p) (omega arith) (omega arith) (omega arith))
  | inr other ↦
      let e' : k ≡ index_of id (slice ids (i + 1) (suc p)) + 1 = rw other at e in
      rw other (
        ap₂ ◌∷◌ (shift_down_below m ids j i (omega arith)) (
          removed ids id (i + 1) p (k - 1) m j (omega arith) (omega arith) (omega arith)
            (omega arith)))
]

pub removed_last :
    (ids : List ℕ) (id n k m j : ℕ)
    → k ≡ index_of id (slice ids 1 n)
    → k < n
    → n ≡ m + j
    → j ≡ 1 + k
    → n < length ids
    → slice (shift_down m ids j) 1 (n - 1) ≡ remove_first id (slice ids 1 n)
removed_last ids id zero k m j e h hn hj b = absurd (omega arith)
removed_last ids id (suc p) k m j e h hn hj b =
    let ep : suc p - 1 ≡ p = omega arith in
    rw ep (removed ids id 1 p k m j e (omega arith) hj (omega arith))

pub slice-set_last :
    (ids : List ℕ) (i n v j : ℕ)
    → j ≡ i + n
    → j < length ids
    → slice (set ids j v) i (suc n) ≡ slice ids i n ++ (v ∷ [])
unfolding slice
slice-set_last ids i zero v j e h =
    let e' : j ≡ i = omega arith in
    rw e' (ap (λ x. x ∷ []) (get_or-set_self ids i v no_tree (omega arith)))
slice-set_last ids i (suc n) v j e h =
    ap₂ ◌∷◌ (get_or-set_ne ids j i v no_tree (omega arith))
      (slice-set_last ids (i + 1) n v j (omega arith) h)
