-- ===== src/Smb2/CreateOption.antt =====
-- Sources/CSMB/include/smb2/smb2.h: the options of a create.
use photo_transfer_nativesmb.Common.{ℕ}

abbrev pub directory_file : ℕ
directory_file = 0x1

abbrev pub no_intermediate_buffering : ℕ
no_intermediate_buffering = 0x8

abbrev pub non_directory_file : ℕ
non_directory_file = 0x40

abbrev pub open_reparse_point : ℕ
open_reparse_point = 0x00200000
