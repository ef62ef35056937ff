-- ===== src/Platform/Calendar.antt =====
-- What schedule.go uses of Go's proleptic Gregorian calendar: `Day`, and `time.Date` at the first
-- of the next month and the same time of day. The zone is a fixed offset east of UTC.
pub mod Years
pub mod Months
use momotaro.Prelude.{
  ℕ, zero, suc, ◌+◌, ◌-◌, ◌*◌, ◌/◌, ◌%◌, ◌==◌, Bool, true, false, not, ◌&&◌, ◌||◌, List, [], ◌∷◌,
  ltb, if◌then◌else◌,
}
use momotaro.Platform.Time.{Time, nanos_per_day}

abbrev is_leap : ℕ → Bool
is_leap y = (y % 4 == 0 && not (y % 100 == 0)) || y % 400 == 0

abbrev days_in_year : ℕ → ℕ
days_in_year y = if is_leap y then 366 else 365

abbrev month_lengths : Bool → List ℕ
month_lengths leap =
    31 ∷ (if leap then 29 else 28) ∷ 31 ∷ 30 ∷ 31 ∷ 30 ∷ 31 ∷ 31 ∷ 30 ∷ 31 ∷ 30 ∷ 31 ∷ []

-- The year that day `n` falls in, counted from the first day of year `y`, and the day in it.
-- The fuel is the number of years that may be passed.
unfoldable pub year_walk : ℕ → ℕ → ℕ → ℕ × ℕ
year_walk zero y n = (y, n)
year_walk (suc k) y n =
    let rest = year_walk k (y + 1) (n - days_in_year y) in
    if ltb n (days_in_year y) then (y, n) else rest

-- The day in its month, from 0, and the month's length.
unfoldable pub month_walk : List ℕ → ℕ → ℕ × ℕ
month_walk [] n = (n, n + 1)
month_walk (l ∷ ls) n = let rest = month_walk ls (n - l) in if ltb n l then (n, l) else rest

-- Leap years repeat every 400 years, which have this many days.
abbrev days_per_era : ℕ
days_per_era = 146097

-- By the day number, counted from 1 January of year 1.
unfoldable pub month_place : ℕ → ℕ × ℕ
month_place n =
    let (y, r) = year_walk 400 1 (n % days_per_era) in month_walk (month_lengths (is_leap y)) r

-- `t.Day()` in the zone.
unfoldable pub day_of_month : ℕ → Time → ℕ
unfolding month_place
day_of_month zone t = (month_place ((t + zone) / nanos_per_day)).0 + 1

-- `time.Date(t.Year(), t.Month()+1, 1, …)` at the time of day of `t`.
unfoldable pub first_of_next_month : ℕ → Time → Time
unfolding month_place
first_of_next_month zone t =
    let (d, l) = month_place ((t + zone) / nanos_per_day) in t + (l - d) * nanos_per_day
