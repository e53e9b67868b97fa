-- ===== src/Smb2/Flags.antt =====
-- Sources/CSMB/include/smb2/smb2.h: the header's flags.
use photo_transfer_nativesmb.Common.{ℕ}

abbrev pub server_to_redir : ℕ
server_to_redir = 0x00000001

abbrev pub async_command : ℕ
async_command = 0x00000002

abbrev pub related_operations : ℕ
related_operations = 0x00000004

abbrev pub signed : ℕ
signed = 0x00000008
