-- ===== src/Smb2/NtStatus.antt =====
-- Sources/CSMB/include/smb2/smb2-errors.h: the statuses that the modelled code names.
use photo_transfer_nativesmb.Common.{ℕ}

abbrev pub severity_mask : ℕ
severity_mask = 0xc0000000

abbrev pub severity_warning : ℕ
severity_warning = 0x80000000

abbrev pub severity_error : ℕ
severity_error = 0xc0000000

abbrev pub pending : ℕ
pending = 0x00000103

abbrev pub more_processing_required : ℕ
more_processing_required = 0xC0000016

abbrev pub io_timeout : ℕ
io_timeout = 0xC00000B5

abbrev pub stopped_on_symlink : ℕ
stopped_on_symlink = 0x8000002D

abbrev pub success : ℕ
success = 0x00000000

abbrev pub end_of_file : ℕ
end_of_file = 0xC0000011

abbrev pub shutdown : ℕ
shutdown = 0xffffffff

abbrev pub no_such_file : ℕ
no_such_file = 0xC000000F

abbrev pub no_such_device : ℕ
no_such_device = 0xC000000E

abbrev pub bad_network_name : ℕ
bad_network_name = 0xC00000CC

abbrev pub object_name_not_found : ℕ
object_name_not_found = 0xC0000034

abbrev pub object_path_invalid : ℕ
object_path_invalid = 0xC0000039

abbrev pub object_path_not_found : ℕ
object_path_not_found = 0xC000003A

abbrev pub object_path_syntax_bad : ℕ
object_path_syntax_bad = 0xC000003B

abbrev pub dfs_exit_path_found : ℕ
dfs_exit_path_found = 0xC000009B

abbrev pub delete_pending : ℕ
delete_pending = 0xC0000056

abbrev pub redirector_not_started : ℕ
redirector_not_started = 0xC00000FB

abbrev pub not_found : ℕ
not_found = 0xC0000225

abbrev pub smb_bad_fid : ℕ
smb_bad_fid = 0x00060001

abbrev pub invalid_handle : ℕ
invalid_handle = 0xC0000008

abbrev pub object_type_mismatch : ℕ
object_type_mismatch = 0xC0000024

abbrev pub port_disconnected : ℕ
port_disconnected = 0xC0000037

abbrev pub invalid_port_handle : ℕ
invalid_port_handle = 0xC0000042

abbrev pub handle_not_closable : ℕ
handle_not_closable = 0xC0000235

abbrev pub access_denied : ℕ
access_denied = 0xC0000022

abbrev pub network_access_denied : ℕ
network_access_denied = 0xC00000CA

abbrev pub account_restriction : ℕ
account_restriction = 0xC000006E

abbrev pub invalid_logon_hours : ℕ
invalid_logon_hours = 0xC000006F

abbrev pub password_expired : ℕ
password_expired = 0xC0000071

abbrev pub account_disabled : ℕ
account_disabled = 0xC0000072

abbrev pub invalid_lock_sequence : ℕ
invalid_lock_sequence = 0xC000001E

abbrev pub invalid_view_size : ℕ
invalid_view_size = 0xC000001F

abbrev pub already_committed : ℕ
already_committed = 0xC0000021

abbrev pub port_connection_refused : ℕ
port_connection_refused = 0xC0000041

abbrev pub thread_is_terminating : ℕ
thread_is_terminating = 0xC000004B

abbrev pub privilege_not_held : ℕ
privilege_not_held = 0xC0000061

abbrev pub file_is_a_directory : ℕ
file_is_a_directory = 0xC00000BA

abbrev pub file_renamed : ℕ
file_renamed = 0xC00000D5

abbrev pub process_is_terminating : ℕ
process_is_terminating = 0xC000010A

abbrev pub cannot_delete : ℕ
cannot_delete = 0xC0000121

abbrev pub file_deleted : ℕ
file_deleted = 0xC0000123

abbrev pub directory_not_empty : ℕ
directory_not_empty = 0xC0000101

abbrev pub no_more_files : ℕ
no_more_files = 0x80000006

abbrev pub logon_failure : ℕ
logon_failure = 0xC000006D

abbrev pub not_a_directory : ℕ
not_a_directory = 0xC0000103

abbrev pub not_implemented : ℕ
not_implemented = 0xC0000002

abbrev pub invalid_device_request : ℕ
invalid_device_request = 0xC0000010

abbrev pub illegal_function : ℕ
illegal_function = 0xC00000AF

abbrev pub invalid_parameter : ℕ
invalid_parameter = 0xC000000D

abbrev pub not_supported : ℕ
not_supported = 0xC00000BB

abbrev pub not_a_reparse_point : ℕ
not_a_reparse_point = 0xC0000275

abbrev pub too_many_opened_files : ℕ
too_many_opened_files = 0xC000011F

abbrev pub section_too_big : ℕ
section_too_big = 0xC0000040

abbrev pub too_many_paging_files : ℕ
too_many_paging_files = 0xC0000097

abbrev pub insuff_server_resources : ℕ
insuff_server_resources = 0xC0000205

abbrev pub not_same_device : ℕ
not_same_device = 0xC00000D4

abbrev pub sharing_violation : ℕ
sharing_violation = 0xC0000043

abbrev pub file_lock_conflict : ℕ
file_lock_conflict = 0xC0000054

abbrev pub lock_not_granted : ℕ
lock_not_granted = 0xC0000055

abbrev pub object_name_collision : ℕ
object_name_collision = 0xC0000035

abbrev pub pipe_disconnected : ℕ
pipe_disconnected = 0xC00000B0

abbrev pub media_write_protected : ℕ
media_write_protected = 0xC00000A2

abbrev pub no_media_in_device : ℕ
no_media_in_device = 0xC0000013

abbrev pub data_error : ℕ
data_error = 0xC000003E

abbrev pub crc_error : ℕ
crc_error = 0xC000003F

abbrev pub device_data_error : ℕ
device_data_error = 0xC000009C

abbrev pub io_device_error : ℕ
io_device_error = 0xC0000185

abbrev pub disk_full : ℕ
disk_full = 0xC000007F

abbrev pub cancelled : ℕ
cancelled = 0xC0000120

abbrev pub file_closed : ℕ
file_closed = 0xC0000128

abbrev pub volume_dismounted : ℕ
volume_dismounted = 0xC000026E

abbrev pub connection_disconnected : ℕ
connection_disconnected = 0xC000020C

abbrev pub connection_reset : ℕ
connection_reset = 0xC000020D

abbrev pub connection_invalid : ℕ
connection_invalid = 0xC000023A

abbrev pub connection_aborted : ℕ
connection_aborted = 0xC0000241

abbrev pub network_name_deleted : ℕ
network_name_deleted = 0xC00000C9

abbrev pub invalid_network_response : ℕ
invalid_network_response = 0xC00000C3

abbrev pub path_not_covered : ℕ
path_not_covered = 0xC0000257

abbrev pub insufficient_resources : ℕ
insufficient_resources = 0xC000009A

abbrev pub internal_error : ℕ
internal_error = 0xC00000E5
