-- ===== src/Timestamps/Tests.antt =====
-- Concrete time stamps.
use photo_transfer_nativesmb.Common.{◌≤◌, arith}
use photo_transfer_nativesmb.Timestamps.{Timeval, win_to_timeval, win_to_timeval_early}

abbrev moment : Timeval
moment = record { tv_sec = 1700000000; tv_usec = 123456 }

win_to_timeval_early_example : 1833029933770 ≤ (win_to_timeval 0).tv_sec
win_to_timeval_early_example = win_to_timeval_early 0 (omega arith)
