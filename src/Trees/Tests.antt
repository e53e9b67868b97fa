-- ===== src/Trees/Tests.antt =====
-- Runs of the tree stack, and its theorems at concrete inputs.
use photo_transfer_nativesmb.Common.{
  ℕ, ◌<◌, ◌≡◌, refl, ◌⊎◌, [], ◌∷◌, ◌++◌, replicate, true, false, arith,
}
use photo_transfer_nativesmb.Wire.{ok, fail}
use photo_transfer_nativesmb.Smb2.{Context}
use photo_transfer_nativesmb.Trees.{
  current_tree_id, find_tree, select_tree_id, connect_tree_id, disconnect_tree_id, remove_at,
}
use photo_transfer_nativesmb.Trees.Stack.{
  IsWf, connected, connect_tree_id-connected, select_tree_id-connected,
  disconnect_tree_id-connected,
}
use photo_transfer_nativesmb.Trees.Stack.Shift.{contains, remove_first, slice}

-- Two trees, of which the first is the current one.
abbrev two_trees : Context
two_trees = record {
  is_server = false;
  dialect = 0x0302;
  credits = 1;
  seal = false;
  sign = false;
  timeout = 0;
  message_id = 4;
  session_id = 77;
  async_id = 0;
  tree_ids = 0xdeadbeef ∷ 5 ∷ 9 ∷ replicate 29 0;
  tree_id_top = 2;
  tree_id_cur = 1;
}

two_trees-IsWf : IsWf two_trees
two_trees-IsWf = omega arith

disconnect_first :
    let (s, c) = disconnect_tree_id two_trees 5 in
    (s ≡ ok) × (connected c ≡ 9 ∷ []) × (current_tree_id c ≡ 9)
unfolding disconnect_tree_id find_tree remove_at slice current_tree_id
disconnect_first = (refl, refl, refl)

connect_tree_id-connected_example :
    let (s, c') = connect_tree_id two_trees 7 in
    IsWf c'
    × ((s ≡ ok)
          × (connected c' ≡ connected two_trees ++ (7 ∷ []))
          × (current_tree_id c' ≡ 7)
          × (2 < 31)
        ⊎ (s ≡ fail) × (c' ≡ two_trees) × (◌≡◌ {A = ℕ} 2 31))
connect_tree_id-connected_example = connect_tree_id-connected two_trees 7 two_trees-IsWf

select_tree_id-connected_example :
    let (s, c') = select_tree_id two_trees 9 in
    IsWf c'
    × (connected c' ≡ connected two_trees)
    × ((contains 9 (connected two_trees) ≡ true) × (s ≡ ok) × (current_tree_id c' ≡ 9)
        ⊎ (contains 9 (connected two_trees) ≡ false) × (s ≡ fail) × (c' ≡ two_trees))
select_tree_id-connected_example = select_tree_id-connected two_trees 9 two_trees-IsWf

disconnect_tree_id-connected_example :
    let (s, c') = disconnect_tree_id two_trees 5 in
    IsWf c'
    × ((contains 5 (connected two_trees) ≡ true)
          × (s ≡ ok)
          × (connected c' ≡ remove_first 5 (connected two_trees))
        ⊎ (contains 5 (connected two_trees) ≡ false) × (s ≡ fail) × (c' ≡ two_trees))
disconnect_tree_id-connected_example = disconnect_tree_id-connected two_trees 5 two_trees-IsWf
