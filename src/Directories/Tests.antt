-- ===== src/Directories/Tests.antt =====
-- Directories: the theorems at concrete inputs.
use photo_transfer_nativesmb.Socket.{drop}
use photo_transfer_nativesmb.Common.{
  ◌⊎◌, inl, inr, ℕ, ◌-◌, ◌<◌, ◌≤◌, ◌≡◌, ◌^◌, refl, List, [], ◌∷◌, ◌++◌, replicate, some, arith,
  false,
}
use photo_transfer_nativesmb.Wire.{Iovec}
use photo_transfer_nativesmb.Timestamps.{win_to_timeval}
use photo_transfer_nativesmb.Directories.{
  decode_at, FullInformation, Dirent, Directory, Stamp, unfinished, behind, decode_full_information,
  decode_dirents, seekdir, telldir, readdir,
}
use photo_transfer_nativesmb.Directories.Position.{
  opened, by_read, by_seek, suffix, seekdir-telldir,
}
use photo_transfer_nativesmb.Directories.Chains.{
  Visited, from_start, behind_entry, IsForward, is_unfinished, decode_dirents_ends,
  decode_dirents_diverges,
}

abbrev never : Stamp
never = record { sec = 0; nsec = 0 }

abbrev entry : ℕ → Dirent
entry n = record {
  name = n ∷ [];
  file_type = 0;
  ino = n;
  size = 0;
  atime = never;
  mtime = never;
  ctime = never;
  btime = never;
}

abbrev three : List Dirent
three = entry 97 ∷ entry 98 ∷ entry 99 ∷ []

abbrev second_read : Directory
second_read = (readdir (seekdir (record { entries = three; current = three; index = 0 }) 1)).1

seekdir-telldir_example :
    (seekdir second_read (telldir second_read) ≡ second_read)
    × (telldir second_read ≤ 3)
    × (second_read.current ≡ suffix (telldir second_read) three)
seekdir-telldir_example =
    seekdir-telldir three (omega arith) second_read (by_read (by_seek 1 (omega arith) opened))

-- What an entry of zeros decodes to, with its offset.
abbrev blank : ℕ → FullInformation
blank next = record {
  next_entry_offset = next;
  file_index = 0;
  creation_time = win_to_timeval 0;
  last_access_time = win_to_timeval 0;
  last_write_time = win_to_timeval 0;
  change_time = win_to_timeval 0;
  end_of_file = 0;
  allocation_size = 0;
  file_attributes = 0;
  ea_size = 0;
  file_id = 0;
  name = [];
}

-- Two entries, of which the second points back to the first.
abbrev circle : Iovec
circle = record {
  buf = 80 ∷ (replicate 79 0 ++ (0xb0 ∷ 0xff ∷ 0xff ∷ 0xff ∷ replicate 76 0));
  len = 160;
}

circle-first : decode_full_information (behind circle 0) ≡ some (blank 80)
unfolding decode_full_information drop
circle-first = refl

circle-second : decode_full_information (behind circle 80) ≡ some (blank (2 ^ 32 - 80))
unfolding decode_full_information drop
circle-second = refl

decode_dirents_diverges_example : decode_dirents 1000000 circle (blank 0) 0 [] ≡ unfinished
decode_dirents_diverges_example =
    decode_dirents_diverges circle 80 (blank 80) (blank (2 ^ 32 - 80)) (omega arith) (omega arith)
      (omega arith) circle-first circle-second refl refl 1000000 (blank 0) []

-- An entry with a creation time of which the low half is 2^31, and a name of four units.
abbrev entry_bytes : ℕ → ℕ → List ℕ
entry_bytes next letter =
    (next ∷ replicate 7 0)
    ++ ((0 ∷ 0 ∷ 0 ∷ 0x80 ∷ 0 ∷ 0 ∷ 0xd8 ∷ 1 ∷ replicate 40 0)
        ++ ((0x20 ∷ 0 ∷ 0 ∷ 0 ∷ 8 ∷ 0 ∷ 0 ∷ 0 ∷ replicate 16 0)
            ++ (letter ∷ 0 ∷ 46 ∷ 0 ∷ 109 ∷ 0 ∷ 100 ∷ 0 ∷ [])))

-- A reply with a.md and b.md.
abbrev pair : Iovec
pair = record { buf = entry_bytes 88 97 ++ entry_bytes 0 98; len = 176 }

pair-first : (gs : FullInformation) → (decode_at pair 0 gs).next_entry_offset ≡ 88
unfolding decode_at decode_full_information drop
pair-first gs = refl

pair-second : (gs : FullInformation) → (decode_at pair 88 gs).next_entry_offset ≡ 0
unfolding decode_at decode_full_information drop
pair-second gs = refl

pair_offsets :
    (fs : FullInformation) (offset : ℕ) (gs : FullInformation)
    → Visited pair fs offset gs
    → (offset ≡ 0) ⊎ (offset ≡ 88)
pair_offsets fs _ _ from_start = inl refl
pair_offsets fs _ _ (behind_entry offset gs v inside positive) =
    elim (pair_offsets fs offset gs v) [
      | inl e ↦ inr (rw e (omega (arith, pair-first gs)))
      | inr e ↦
          let some_left : 0 < (decode_at pair 88 gs).next_entry_offset = rw e at positive in
          absurd (omega (arith, some_left, pair-second gs))
    ]

pair-IsForward : IsForward pair (blank 0)
pair-IsForward offset gs v inside = elim (pair_offsets (blank 0) offset gs v) [
  | inl e ↦ rw e (omega (arith, pair-first gs))
  | inr e ↦ rw e (omega (arith, pair-second gs))
]

decode_dirents_ends_example : is_unfinished (decode_dirents 177 pair (blank 0) 0 []) ≡ false
decode_dirents_ends_example = decode_dirents_ends pair (blank 0) (omega arith) pair-IsForward
