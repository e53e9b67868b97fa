-- ===== src/Files/Seek.antt =====
-- Seeking compared with moves on positions in a file.
use photo_transfer_nativesmb.Common.{
  ℕ, ◌+◌, ◌-◌, ◌<◌, ◌≤◌, ◌^◌, ◌≡◌, leb, if◌then◌else◌, Option, none, some, arith,
}
use photo_transfer_nativesmb.Files.{
  FileHandle, Whence, seek_set, seek_cur, seek_end, other_whence, lseek,
}

-- A move forward, or back; the word of it that `lseek` takes.
pub data Move : Type 0 where
  forward : ℕ → Move
  back : ℕ → Move

abbrev pub word_of : Move → ℕ
word_of (forward k) = k
word_of (back k) = 2 ^ 64 - k

-- Where a move leads to from a position, if it does not lead before the start of the file.
abbrev pub move : ℕ → Move → Option ℕ
move from (forward k) = some (from + k)
move from (back k) = if leb k from then some (from - k) else none

-- A move that `int64_t` holds and that does not leave it, from that position.
abbrev pub IsShort : ℕ → Move → Type 0
IsShort from (forward k) = from + k < 2 ^ 63
IsShort from (back k) = (0 < k) × (k ≤ 2 ^ 63)

abbrev pub start : Whence → FileHandle → ℕ
start seek_cur fh = fh.offset
start seek_end fh = fh.end_of_file
start _ fh = 0

-- The handle after a move, and after one that is refused: seeking from the end has then moved.
abbrev pub moved : Whence → FileHandle → Option ℕ → FileHandle × Option ℕ
moved whence fh (some to) = (record fh { offset = to }, some to)
moved seek_end fh none = (record fh { offset = fh.end_of_file }, none)
moved _ fh none = (fh, none)

abbrev pub IsWhence : Whence → Type 0
IsWhence other_whence = ⊥
IsWhence _ = Unit {0}

-- `smb2_lseek` moves the offset of a handle, from the start of the file, from where it is or from the
-- end, forward or back, as far as it is told, and returns the new offset. It refuses a move before
-- the start, and then leaves the handle as it is, but for a move from the end, after which the handle
-- is at the end. The offsets and the sum are to fit 63 bits.
pub lseek-move :
    (fh : FileHandle) (whence : Whence) (m : Move)
    → IsWhence whence
    → fh.offset < 2 ^ 63
    → fh.end_of_file < 2 ^ 63
    → IsShort (start whence fh) m
    → lseek fh (word_of m) whence ≡ moved whence fh (move (start whence fh) m)
unfolding lseek
lseek-move fh seek_set (forward k) w o e s = ground (arith, s)
lseek-move fh seek_set (back k) w o e s = ground (arith, s)
lseek-move fh seek_cur (forward k) w o e s = ground (arith, s)
lseek-move fh seek_cur (back k) w o e s = ground (arith, s, o)
lseek-move fh seek_end (forward k) w o e s = ground (arith, s)
lseek-move fh seek_end (back k) w o e s = ground (arith, s, e)
lseek-move fh other_whence m w o e s = absurd w
