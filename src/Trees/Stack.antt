-- ===== src/Trees/Stack.antt =====
-- The stack of tree ids as the list of the connected trees, oldest first: what each operation of
-- Trees.antt does to it.
pub mod Shift
use photo_transfer_nativesmb.Common.{
  ℕ, zero, suc, ◌+◌, ◌-◌, ◌≤◌, ◌<◌, ◌≡◌, refl, sym, ap, ◌∙◌, ◌⊎◌, inl, inr, List, [], ◌∷◌, ◌++◌,
  length, length-set, get_or, get_or-set_self, get_or-set_ne, set, ltb, leb, ◌==◌, if◌then◌else◌,
  true, false, Bool_cases, arith, ==_iff, Bool,
}
use photo_transfer_nativesmb.Wire.{ok, fail}
use photo_transfer_nativesmb.Smb2.{Context}
use photo_transfer_nativesmb.Trees.{
  max_tree_nesting, no_tree, current_tree_id, find_tree, select_tree_id, connect_tree_id, remove_at,
  disconnect_tree_id, shift_down,
}
use Shift.{
  slice, index_of, remove_first, contains, removed_last, slice-set_last, get_or-slice,
  index_of-contains, length-slice, length-shift_down,
}

-- `tree_id_top` and `tree_id_cur` index the array, and the current tree is not above the top.
pub record IsWf (c : Context) : Type 0 where
  pub size : length c.tree_ids ≡ max_tree_nesting
  pub top_in : c.tree_id_top < max_tree_nesting
  pub cur_in : c.tree_id_cur ≤ c.tree_id_top

abbrev pub connected : Context → List ℕ
connected c = slice c.tree_ids 1 c.tree_id_top

find_tree-index_of :
    (rounds : ℕ) (c : Context) (id i n : ℕ)
    → i + n ≡ c.tree_id_top + 1
    → n ≤ rounds
    → c.tree_id_top ≤ max_tree_nesting
    → find_tree rounds c id i ≡ i + index_of id (slice c.tree_ids i n)
unfolding find_tree slice index_of
find_tree-index_of zero c id i zero e h t = omega arith
find_tree-index_of zero c id i (suc n) e h t = absurd (omega arith)
find_tree-index_of (suc r) c id i zero e h t = ground arith
find_tree-index_of (suc r) c id i (suc n) e h t =
    ground (arith, find_tree-index_of r c id (i + 1) n)

-- `smb2_connect_tree_id` puts the new tree behind the others and makes it the current one, or
-- refuses it when 31 trees are connected and changes nothing. The stack stays well formed.
pub connect_tree_id-connected :
    (c : Context) (id : ℕ)
    → IsWf c
    → let (s, c') = connect_tree_id c id in
      IsWf c'
      × ((s ≡ ok)
            × (connected c' ≡ connected c ++ (id ∷ []))
            × (current_tree_id c' ≡ id)
            × (c.tree_id_top < 31)
          ⊎ (s ≡ fail) × (c' ≡ c) × (c.tree_id_top ≡ 31))
unfolding connect_tree_id current_tree_id
connect_tree_id-connected c id w = ground (
  arith,
  length-set c.tree_ids (c.tree_id_top + 1) id,
  slice-set_last c.tree_ids 1 c.tree_id_top id (c.tree_id_top + 1),
  get_or-set_self c.tree_ids (c.tree_id_top + 1) id no_tree,
)

-- `smb2_select_tree_id` succeeds exactly on the trees that are connected; it then makes that tree
-- the current one, and otherwise changes nothing. The connected trees stay the same.
pub select_tree_id-connected :
    (c : Context) (id : ℕ)
    → IsWf c
    → let (s, c') = select_tree_id c id in
      IsWf c'
      × (connected c' ≡ connected c)
      × ((contains id (connected c) ≡ true) × (s ≡ ok) × (current_tree_id c' ≡ id)
          ⊎ (contains id (connected c) ≡ false) × (s ≡ fail) × (c' ≡ c))
unfolding select_tree_id current_tree_id
select_tree_id-connected c id w = ground (
  arith,
  find_tree-index_of max_tree_nesting c id 1 c.tree_id_top,
  index_of-contains id (connected c),
  length-slice c.tree_ids 1 c.tree_id_top,
  get_or-slice c.tree_ids id 1 c.tree_id_top (find_tree max_tree_nesting c id 1),
)

-- `smb2_disconnect_tree_id` succeeds exactly on the trees that are connected, removes the oldest
-- entry of that id and keeps the order of the others, or changes nothing. The current tree still
-- indexes the stack.
pub disconnect_tree_id-connected :
    (c : Context) (id : ℕ)
    → IsWf c
    → let (s, c') = disconnect_tree_id c id in
      IsWf c'
      × ((contains id (connected c) ≡ true)
            × (s ≡ ok)
            × (connected c' ≡ remove_first id (connected c))
          ⊎ (contains id (connected c) ≡ false) × (s ≡ fail) × (c' ≡ c))
unfolding disconnect_tree_id remove_at
disconnect_tree_id-connected c id w =
    let i = find_tree max_tree_nesting c id 1 in
    ground (
      arith,
      find_tree-index_of max_tree_nesting c id 1 c.tree_id_top,
      index_of-contains id (connected c),
      length-slice c.tree_ids 1 c.tree_id_top,
      length-shift_down (c.tree_id_top - i) c.tree_ids i,
      removed_last c.tree_ids id c.tree_id_top (index_of id (connected c)) (c.tree_id_top - i) i,
    )
