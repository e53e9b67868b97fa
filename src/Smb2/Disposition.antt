-- ===== src/Smb2/Disposition.antt =====
-- Sources/CSMB/include/smb2/smb2.h: what a create does with a file that is there or not.
use photo_transfer_nativesmb.Common.{ℕ}

abbrev pub open_existing : ℕ
open_existing = 1

abbrev pub create : ℕ
create = 2

abbrev pub open_if : ℕ
open_if = 3

abbrev pub overwrite : ℕ
overwrite = 4

abbrev pub overwrite_if : ℕ
overwrite_if = 5
