-- ===== src/Base/Clock.antt =====
-- Unix times of a time.Time, which is given in nanoseconds since its zero value.
use identity_mservice.Base.{ℕ, ℤ, pos, negsuc, ◌-◌, ◌*◌, ◌/◌, ◌^◌, leb, if◌then◌else◌}

-- time.Time.Unix: the zero time lies 62135596800 seconds before the epoch.
unfoldable pub unix : ℕ → ℤ
unix t =
    let seconds = t / 10 ^ 9 in
    if leb 62135596800 seconds
    then pos (seconds - 62135596800)
    else negsuc (62135596800 - seconds - 1)

-- time.Time.UnixNano, in the range of int64 that the years 1678 up to 2262 give
unfoldable pub unix_nano : ℕ → ℤ
unix_nano t =
    if leb (62135596800 * 10 ^ 9) t
    then pos (t - 62135596800 * 10 ^ 9)
    else negsuc (62135596800 * 10 ^ 9 - t - 1)
