-- ===== src/Trees.antt =====
-- Sources/CSMB/lib/pdu.c: the stack of connected tree ids of a context (smb2_select_tree_id,
-- smb2_get_tree_id_for_pdu, smb2_set_tree_id_for_pdu, smb2_connect_tree_id,
-- smb2_disconnect_tree_id), and the macro smb2_tree_id of libsmb2-private.h.
pub mod Stack
mod Tests
use photo_transfer_nativesmb.Common.{
  ℕ, zero, suc, ◌+◌, ◌-◌, List, Bool, true, false, ◌&&◌, ◌||◌, get_or, set, ltb, leb, ◌==◌, not,
  if◌then◌else◌, Option, none, some, bit_and,
}
use photo_transfer_nativesmb.Wire.{Status, ok, fail}
use photo_transfer_nativesmb.Smb2.Command
use photo_transfer_nativesmb.Smb2.Flags
use photo_transfer_nativesmb.Smb2.{Header, Context, with_tree_id}

-- `SMB2_MAX_TREE_NESTING`
abbrev pub max_tree_nesting : ℕ
max_tree_nesting = 32

abbrev pub no_tree : ℕ
no_tree = 0xdeadbeef

-- The macro `smb2_tree_id`. Its test for a negative index never holds: the index starts at 0 and
-- is only set to an index of the stack.
unfoldable pub current_tree_id : Context → ℕ
current_tree_id c = get_or c.tree_ids c.tree_id_cur no_tree

-- `for (i = 1; i <= top && i <= SMB2_MAX_TREE_NESTING; i++) if (tree_id[i] == id) break;`, with the
-- rounds that are left: from `i = 1` there are at most 32.
unfoldable pub find_tree : ℕ → Context → ℕ → ℕ → ℕ
find_tree zero c id i = i
find_tree (suc rounds) c id i =
    let next = find_tree rounds c id (i + 1) in
    if leb i c.tree_id_top && leb i max_tree_nesting
    then (if get_or c.tree_ids i no_tree == id then i else next)
    else i

unfoldable pub select_tree_id : Context → ℕ → Status × Context
select_tree_id c id =
    let i = find_tree max_tree_nesting c id 1 in
    if leb i c.tree_id_top then (ok, record c { tree_id_cur = i }) else (fail, c)

-- The commands that are not sent on a tree. (The code's switches list them twice.)
unfoldable pub is_treeless : ℕ → Bool
is_treeless cmd =
    cmd == Command.negotiate
    || cmd == Command.session_setup
    || cmd == Command.logoff
    || cmd == Command.echo
    || cmd == Command.tree_connect

-- The header is that of `pdu`; `none` is a null pointer. The result is the status and `*tree_id`.
unfoldable pub get_tree_id_for_pdu : Context → Option Header → Status × ℕ
unfolding is_treeless current_tree_id
get_tree_id_for_pdu c none =
    if ltb 0 c.tree_id_top then (ok, current_tree_id c) else (fail, no_tree)
get_tree_id_for_pdu c (some h) =
    if is_treeless h.command
    then (ok, 0)
    else (if ltb 0 c.tree_id_top then (ok, current_tree_id c) else (fail, no_tree))

unfoldable pub set_tree_id_for_pdu : Option Header → ℕ → Status × Option Header
unfolding is_treeless
set_tree_id_for_pdu none id = (fail, none)
set_tree_id_for_pdu (some h) id =
    if not (bit_and h.flags Flags.async_command == 0)
    then (ok, some h)
    else (if is_treeless h.command then (ok, some h) else (ok, some (with_tree_id h id)))

unfoldable pub connect_tree_id : Context → ℕ → Status × Context
connect_tree_id c id =
    if ltb c.tree_id_top (max_tree_nesting - 1)
    then (
      ok,
      record c {
        tree_ids = set c.tree_ids (c.tree_id_top + 1) id;
        tree_id_top = c.tree_id_top + 1;
        tree_id_cur = c.tree_id_top + 1;
      },
    )
    else (fail, c)

-- `for (j = i; j < top; j++) tree_id[j] = tree_id[j + 1];` with the rounds that are left.
unfoldable pub shift_down : ℕ → List ℕ → ℕ → List ℕ
shift_down zero ids j = ids
shift_down (suc rounds) ids j = shift_down rounds (set ids j (get_or ids (j + 1) no_tree)) (j + 1)

-- The context after the entry at `i` is removed.
unfoldable pub remove_at : Context → ℕ → Context
unfolding shift_down
remove_at c i =
    let top = c.tree_id_top - 1 in
    record c {
      tree_ids = shift_down (c.tree_id_top - i) c.tree_ids i;
      tree_id_top = top;
      tree_id_cur = if ltb top c.tree_id_cur then top else c.tree_id_cur;
    }

unfoldable pub disconnect_tree_id : Context → ℕ → Status × Context
disconnect_tree_id c id =
    let i = find_tree max_tree_nesting c id 1 in
    if ltb 0 c.tree_id_top
    then (if leb i c.tree_id_top then (ok, remove_at c i) else (fail, c))
    else (fail, c)
