-- ===== src/Timestamps.antt =====
-- Sources/CSMB/lib/timestamps.c: the time stamps of Windows, in units of 100 ns since 1601, and
-- `struct smb2_timeval`. A time_t or long is its pattern of 64 bits.
mod Tests
use photo_transfer_nativesmb.Common.{ℕ, ◌+◌, ◌-◌, ◌*◌, ◌/◌, ◌%◌, ◌^◌, ◌≤◌, ◌<◌, ◌≡◌, ap, arith}

pub record Timeval : Type 0 where
  pub tv_sec : ℕ
  pub tv_usec : ℕ

-- 1970 in the time of Windows.
abbrev pub unix_epoch : ℕ
unix_epoch = 116444736000000000

unfoldable pub timeval_to_win : Timeval → ℕ
timeval_to_win tv = (tv.tv_sec * 10000000 + unix_epoch + tv.tv_usec * 10) % 2 ^ 64

unfoldable pub win_to_timeval : ℕ → Timeval
win_to_timeval t = record {
  tv_sec = (t + 2 ^ 64 - unix_epoch) % 2 ^ 64 / 10000000;
  tv_usec = t / 10 % 1000000;
}

-- A time from 1970 on, whose stamp fits 64 bits, is read back from its stamp.
pub win_to_timeval-timeval_to_win :
    (tv : Timeval)
    → tv.tv_usec < 1000000
    → tv.tv_sec < 1833029933770
    → win_to_timeval (timeval_to_win tv) ≡ tv
unfolding win_to_timeval timeval_to_win
win_to_timeval-timeval_to_win tv hu hs = ground arith

-- A stamp from 1970 on is a time whose stamp is the same, cut to microseconds.
pub timeval_to_win-win_to_timeval :
    (t : ℕ) → unix_epoch ≤ t → t < 2 ^ 64 → timeval_to_win (win_to_timeval t) ≡ t / 10 * 10
unfolding win_to_timeval timeval_to_win
timeval_to_win-win_to_timeval t lo hi = omega arith

-- A stamp before 1970, such as the 0 that stands for no time, is read as a time more than 58000
-- years after it: the difference wraps before it is divided.
pub win_to_timeval_early : (t : ℕ) → t < unix_epoch → 1833029933770 ≤ (win_to_timeval t).tv_sec
unfolding win_to_timeval
win_to_timeval_early t h = omega arith
