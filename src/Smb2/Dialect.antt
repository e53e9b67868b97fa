-- ===== src/Smb2/Dialect.antt =====
-- Sources/CSMB/include/smb2/libsmb2.h: `enum smb2_negotiate_version`, as far as it names dialects.
use photo_transfer_nativesmb.Common.{ℕ}

abbrev pub v0202 : ℕ
v0202 = 0x0202

abbrev pub v0210 : ℕ
v0210 = 0x0210

abbrev pub v0300 : ℕ
v0300 = 0x0300

abbrev pub v0302 : ℕ
v0302 = 0x0302

abbrev pub v0311 : ℕ
v0311 = 0x0311
