-- ===== src/Errors/Tests.antt =====
-- The table of errors at a concrete status.
use photo_transfer_nativesmb.Common.{◌≡◌, ◌==◌, ◌||◌}
use photo_transfer_nativesmb.Smb2.NtStatus
use photo_transfer_nativesmb.Errors.{is_no_error, nterror_to_errno, nterror_to_errno_zero}

nterror_to_errno_zero_example :
    is_no_error (nterror_to_errno 0xC0000022)
    ≡ (0xC0000022 == NtStatus.success || 0xC0000022 == NtStatus.end_of_file)
nterror_to_errno_zero_example = nterror_to_errno_zero 0xC0000022
