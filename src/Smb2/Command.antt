-- ===== src/Smb2/Command.antt =====
-- Sources/CSMB/include/smb2/smb2.h: `enum smb2_command`. A header's command is any uint16, so the
-- commands are numbers.
use photo_transfer_nativesmb.Common.{ℕ}

abbrev pub negotiate : ℕ
negotiate = 0

abbrev pub session_setup : ℕ
session_setup = 1

abbrev pub logoff : ℕ
logoff = 2

abbrev pub tree_connect : ℕ
tree_connect = 3

abbrev pub tree_disconnect : ℕ
tree_disconnect = 4

abbrev pub create : ℕ
create = 5

abbrev pub close : ℕ
close = 6

abbrev pub flush : ℕ
flush = 7

abbrev pub read : ℕ
read = 8

abbrev pub write : ℕ
write = 9

abbrev pub lock : ℕ
lock = 10

abbrev pub ioctl : ℕ
ioctl = 11

abbrev pub cancel : ℕ
cancel = 12

abbrev pub echo : ℕ
echo = 13

abbrev pub query_directory : ℕ
query_directory = 14

abbrev pub change_notify : ℕ
change_notify = 15

abbrev pub query_info : ℕ
query_info = 16

abbrev pub set_info : ℕ
set_info = 17

abbrev pub oplock_break : ℕ
oplock_break = 18

-- `SMB1_NEGOTIATE`
abbrev pub smb1_negotiate : ℕ
smb1_negotiate = 114
