-- ===== src/Errors.antt =====
-- Sources/CSMB/lib/errors.c: nterror_to_errno.
mod Tests
use photo_transfer_nativesmb.Common.{
  ℕ, List, [], ◌∷◌, ◌==◌, if◌then◌else◌, Bool, true, false, ◌||◌, ◌≡◌, arith,
}
use photo_transfer_nativesmb.Smb2.NtStatus

-- The values of `errno` that the table names, which differ between platforms; `no_error` is 0 and
-- `shut_down` is `-(int)SMB2_STATUS_SHUTDOWN`, 1.
pub data Errno : Type 0 where
  no_error eagain shut_down enoent ebadf eacces eperm enotempty : Errno
  enodata econnrefused enotdir einval enolink emfile enomem exdev : Errno
  etxtbsy edeadlk eexist epipe erofs enodev eio enospc : Errno
  enetreset enoexec etimedout ebusy : Errno

-- A `switch` on the status.
unfoldable pub errno_of : List (ℕ × Errno) → Errno → ℕ → Errno
errno_of [] default status = default
errno_of ((k, e) ∷ cases) default status =
    let rest = errno_of cases default status in if status == k then e else rest

abbrev pub errno_table : List (ℕ × Errno)
errno_table =
    (NtStatus.success, no_error)
    ∷ (NtStatus.end_of_file, no_error)
    ∷ (NtStatus.pending, eagain)
    ∷ (NtStatus.shutdown, shut_down)
    ∷ (NtStatus.no_such_file, enoent)
    ∷ (NtStatus.no_such_device, enoent)
    ∷ (NtStatus.bad_network_name, enoent)
    ∷ (NtStatus.object_name_not_found, enoent)
    ∷ (NtStatus.object_path_invalid, enoent)
    ∷ (NtStatus.object_path_not_found, enoent)
    ∷ (NtStatus.object_path_syntax_bad, enoent)
    ∷ (NtStatus.dfs_exit_path_found, enoent)
    ∷ (NtStatus.delete_pending, enoent)
    ∷ (NtStatus.redirector_not_started, enoent)
    ∷ (NtStatus.not_found, enoent)
    ∷ (NtStatus.smb_bad_fid, ebadf)
    ∷ (NtStatus.invalid_handle, ebadf)
    ∷ (NtStatus.object_type_mismatch, ebadf)
    ∷ (NtStatus.port_disconnected, ebadf)
    ∷ (NtStatus.invalid_port_handle, ebadf)
    ∷ (NtStatus.handle_not_closable, ebadf)
    ∷ (NtStatus.more_processing_required, eagain)
    ∷ (NtStatus.access_denied, eacces)
    ∷ (NtStatus.network_access_denied, eacces)
    ∷ (NtStatus.account_restriction, eacces)
    ∷ (NtStatus.invalid_logon_hours, eacces)
    ∷ (NtStatus.password_expired, eacces)
    ∷ (NtStatus.account_disabled, eacces)
    ∷ (NtStatus.invalid_lock_sequence, eperm)
    ∷ (NtStatus.invalid_view_size, eperm)
    ∷ (NtStatus.already_committed, eperm)
    ∷ (NtStatus.port_connection_refused, eperm)
    ∷ (NtStatus.thread_is_terminating, eperm)
    ∷ (NtStatus.privilege_not_held, eperm)
    ∷ (NtStatus.file_is_a_directory, eperm)
    ∷ (NtStatus.file_renamed, eperm)
    ∷ (NtStatus.process_is_terminating, eperm)
    ∷ (NtStatus.cannot_delete, eperm)
    ∷ (NtStatus.file_deleted, eperm)
    ∷ (NtStatus.directory_not_empty, enotempty)
    ∷ (NtStatus.no_more_files, enodata)
    ∷ (NtStatus.logon_failure, econnrefused)
    ∷ (NtStatus.not_a_directory, enotdir)
    ∷ (NtStatus.not_implemented, einval)
    ∷ (NtStatus.invalid_device_request, einval)
    ∷ (NtStatus.illegal_function, einval)
    ∷ (NtStatus.invalid_parameter, einval)
    ∷ (NtStatus.not_supported, einval)
    ∷ (NtStatus.not_a_reparse_point, einval)
    ∷ (NtStatus.stopped_on_symlink, enolink)
    ∷ (NtStatus.too_many_opened_files, emfile)
    ∷ (NtStatus.section_too_big, enomem)
    ∷ (NtStatus.too_many_paging_files, enomem)
    ∷ (NtStatus.insuff_server_resources, enomem)
    ∷ (NtStatus.not_same_device, exdev)
    ∷ (NtStatus.sharing_violation, etxtbsy)
    ∷ (NtStatus.file_lock_conflict, edeadlk)
    ∷ (NtStatus.lock_not_granted, edeadlk)
    ∷ (NtStatus.object_name_collision, eexist)
    ∷ (NtStatus.pipe_disconnected, epipe)
    ∷ (NtStatus.media_write_protected, erofs)
    ∷ (NtStatus.no_media_in_device, enodev)
    ∷ (NtStatus.data_error, eio)
    ∷ (NtStatus.crc_error, eio)
    ∷ (NtStatus.device_data_error, eio)
    ∷ (NtStatus.io_device_error, eio)
    ∷ (NtStatus.disk_full, enospc)
    ∷ (NtStatus.cancelled, enetreset)
    ∷ (NtStatus.file_closed, enetreset)
    ∷ (NtStatus.volume_dismounted, enetreset)
    ∷ (NtStatus.connection_disconnected, enetreset)
    ∷ (NtStatus.connection_reset, enetreset)
    ∷ (NtStatus.connection_invalid, enetreset)
    ∷ (NtStatus.connection_aborted, enetreset)
    ∷ (NtStatus.network_name_deleted, enetreset)
    ∷ (NtStatus.invalid_network_response, enetreset)
    ∷ (NtStatus.path_not_covered, enoexec)
    ∷ (NtStatus.io_timeout, etimedout)
    ∷ (NtStatus.insufficient_resources, ebusy)
    ∷ (NtStatus.internal_error, eio)
    ∷ []

unfoldable pub nterror_to_errno : ℕ → Errno
unfolding errno_of
nterror_to_errno status = errno_of errno_table eio status

-- `-nterror_to_errno(status)` is 0.
abbrev pub is_no_error : Errno → Bool
is_no_error no_error = true
is_no_error _ = false

-- `nterror_to_errno` of a 32-bit status is 0 for success and for the end of a file, and for nothing
-- else.
pub nterror_to_errno_zero :
    (status : ℕ)
    → is_no_error (nterror_to_errno status)
      ≡ (status == NtStatus.success || status == NtStatus.end_of_file)
unfolding nterror_to_errno errno_of
nterror_to_errno_zero status = ground arith
