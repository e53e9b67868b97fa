-- ===== src/Smb2/Access.antt =====
-- Sources/CSMB/include/smb2/smb2.h: the rights of a handle.
use photo_transfer_nativesmb.Common.{ℕ}

abbrev pub read_data : ℕ
read_data = 0x1

abbrev pub write_data : ℕ
write_data = 0x2

abbrev pub read_ea : ℕ
read_ea = 0x8

abbrev pub write_ea : ℕ
write_ea = 0x10

abbrev pub read_attributes : ℕ
read_attributes = 0x80

abbrev pub write_attributes : ℕ
write_attributes = 0x100

abbrev pub synchronize : ℕ
synchronize = 0x00100000
