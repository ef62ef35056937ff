-- ===== src/Platform/Time.antt =====
-- Go's `time.Time` and `time.Duration`. A time is the count of nanoseconds since Go's zero time,
-- 1 January of year 1, so `IsZero` is a test for 0; a duration is an `int64` of nanoseconds.
use momotaro.Prelude.{ℕ, suc, ◌+◌, ◌-◌, ◌*◌, Bool, ltb}
use momotaro.Prelude.Int.{ℤ, pos, negsuc, sub_ℕ, saturate64}

abbrev pub Time : Type 0
Time = ℕ

abbrev pub Duration : Type 0
Duration = ℤ

abbrev pub nanos_per_second : ℕ
nanos_per_second = 1_000_000_000

abbrev pub nanos_per_hour : ℕ
nanos_per_hour = 3600 * nanos_per_second

abbrev pub nanos_per_day : ℕ
nanos_per_day = 24 * nanos_per_hour

-- `t.Add(d)`, for results that are not before year 1.
abbrev pub add : Time → Duration → Time
add t (pos n) = t + n
add t (negsuc n) = t - suc n

-- `t.Sub(u)`.
abbrev pub since : Time → Time → Duration
since t u = saturate64 (sub_ℕ t u)

-- `t.Before(u)`.
abbrev pub before : Time → Time → Bool
before t u = ltb t u
