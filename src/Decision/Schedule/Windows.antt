-- ===== src/Decision/Schedule/Windows.antt =====
-- The contact-hour window and the salary window, at time scale 1 (schedule.go).
use momotaro.Prelude.{
  ℕ, ◌+◌, ◌*◌, ◌-◌, ◌/◌, ◌%◌, ◌^◌, ◌≤◌, ◌<◌, ◌≡◌, refl, ◌⊎◌, inl, inr, true, false, arith, ◌&&◌,
  leb,
}
use native.Mathlib.Decide.{dec_lt}
use momotaro.Prelude.Int.{pos, saturate64}
use momotaro.Platform.Float.{Float}
use momotaro.Platform.Time.{Time, Duration, nanos_per_hour, nanos_per_day, since}
use momotaro.Platform.Calendar.{day_of_month, first_of_next_month}
use momotaro.Platform.Calendar.Months.{first_of_next_month-IsFirst, day_of_month-pos}
use momotaro.Decision.Schedule.{
  ist_hour, ist_zone, next_open, contact_hour_window, scale_duration, salary_window_due_at,
  contact_window_open_hour, contact_window_close_hour,
}

since_forward : (t u : Time) → u ≤ t → t - u < 2 ^ 63 → since t u ≡ pos (t - u)
unfolding saturate64
since_forward t u h k = ground arith

-- A time inside the hours, or put off to the opening, as numbers.
IsInside : Time → Time → Type 0
IsInside due out =
    (contact_window_open_hour ≤ ist_hour out)
    × (ist_hour out < contact_window_close_hour)
    × (due ≤ out)
    × ((out ≡ due)
        ⊎ ((out ≤ due + 13 * nanos_per_hour)
            × ((out + ist_zone) % nanos_per_day ≡ contact_window_open_hour * nanos_per_hour)
            × ((ist_hour due < contact_window_open_hour)
                ⊎ (contact_window_close_hour ≤ ist_hour due))))

early-IsInside :
    (due : Time)
    → ist_hour due < contact_window_open_hour
    → IsInside due (
        due
        + ((due + ist_zone) / nanos_per_day * nanos_per_day
            + contact_window_open_hour * nanos_per_hour
            - (due + ist_zone)))
unfolding IsInside
early-IsInside due h =
    (omega arith, omega arith, omega arith, inr (omega arith, omega arith, inl h))

late-IsInside :
    (due : Time)
    → contact_window_close_hour ≤ ist_hour due
    → IsInside due (
        due
        + ((due + ist_zone) / nanos_per_day * nanos_per_day
            + contact_window_open_hour * nanos_per_hour
            + nanos_per_day
            - (due + ist_zone)))
unfolding IsInside
late-IsInside due h = (omega arith, omega arith, omega arith, inr (omega arith, omega arith, inr h))

module _ (F : Type 0) ⦃fl : Float F⦄ where
  unscaled :
      (d : Duration) (time_scale : F)
      → fl.eq time_scale (fl.of_int (pos 1)) ≡ true
      → scale_duration d time_scale ≡ d
  unfolding scale_duration
  unscaled d time_scale one = rw one refl

  window-kept :
      (due : Time) (time_scale : F)
      → contact_window_open_hour ≤ ist_hour due
      → ist_hour due < contact_window_close_hour
      → contact_hour_window due time_scale ≡ due
  unfolding contact_hour_window
  window-kept due time_scale h k = ground arith

  window-moved :
      (due n : Time) (time_scale : F)
      → fl.eq time_scale (fl.of_int (pos 1)) ≡ true
      → (ist_hour due < contact_window_open_hour) ⊎ (contact_window_close_hour ≤ ist_hour due)
      → next_open (due + ist_zone) (ist_hour due) ≡ n
      → due + ist_zone ≤ n
      → n - (due + ist_zone) < 2 ^ 63
      → contact_hour_window due time_scale ≡ due + (n - (due + ist_zone))
  unfolding contact_hour_window
  window-moved due n time_scale one out e h k =
      let gap : since (next_open (due + ist_zone) (ist_hour due)) (due + ist_zone)
          ≡ pos (n - (due + ist_zone)) =
        rw e (since_forward n (due + ist_zone) h k) in
      ground (
        arith,
        gap,
        unscaled (since (next_open (due + ist_zone) (ist_hour due)) (due + ist_zone)) time_scale
            one,
      )

  -- At time scale 1 a nudge is due inside the contact hours, never before the wanted time; it is
  -- put off only if that was outside them, by at most 13 hours, to the stroke of opening.
  pub contact_hour_window-inside :
      (due : Time) (time_scale : F)
      → fl.eq time_scale (fl.of_int (pos 1)) ≡ true
      → let out = contact_hour_window due time_scale in
        (contact_window_open_hour ≤ ist_hour out)
        × (ist_hour out < contact_window_close_hour)
        × (due ≤ out)
        × ((out ≡ due)
            ⊎ ((out ≤ due + 13 * nanos_per_hour)
                × ((out + ist_zone) % nanos_per_day ≡ contact_window_open_hour * nanos_per_hour)
                × ((ist_hour due < contact_window_open_hour)
                    ⊎ (contact_window_close_hour ≤ ist_hour due))))
  contact_hour_window-inside due time_scale one =
      let today =
        (due + ist_zone) / nanos_per_day * nanos_per_day
        + contact_window_open_hour * nanos_per_hour in
      elim (dec_lt (ist_hour due) contact_window_open_hour) [
        | yes early ↦
            rw
              (window-moved due today time_scale one (inl early) (ground arith) (omega arith)
                (omega arith))
              (unfold IsInside in early-IsInside due early)
        | no late ↦ elim (dec_lt (ist_hour due) contact_window_close_hour) [
          | yes within ↦
              rw (window-kept due time_scale (omega arith) within)
                (omega arith, within, omega arith, inl refl)
          | no closed ↦
              rw
                (window-moved due (today + nanos_per_day) time_scale one (inr (omega arith))
                  (ground arith) (omega arith) (omega arith))
                (unfold IsInside in late-IsInside due (omega arith))
        ]
      ]

  salary-later :
      (zone : ℕ) (now : Time) (time_scale : F)
      → fl.eq time_scale (fl.of_int (pos 1)) ≡ true
      → 7 < day_of_month zone now
      → salary_window_due_at zone now time_scale ≡ first_of_next_month zone now
  unfolding salary_window_due_at
  salary-later zone now time_scale one late =
      let u = first_of_next_month zone now in
      let (first, after, near) = first_of_next_month-IsFirst zone now in
      let gap = since_forward u now (omega arith) (omega arith) in
      let out : (leb 1 (day_of_month zone now) && leb (day_of_month zone now) 7) ≡ false =
        ground arith in
      rw (out, unscaled (since u now) time_scale one, gap) (omega arith)

  salary-now :
      (zone : ℕ) (now : Time) (time_scale : F)
      → fl.eq time_scale (fl.of_int (pos 1)) ≡ true
      → day_of_month zone now ≤ 7
      → salary_window_due_at zone now time_scale ≡ now
  unfolding salary_window_due_at
  salary-now zone now time_scale one early =
      let first_day = day_of_month-pos zone now in
      let within : (leb 1 (day_of_month zone now) && leb (day_of_month zone now) 7) ≡ true =
        ground (arith, day_of_month-pos zone now) in
      rw (within, unscaled (pos 0) time_scale one) (omega arith)

  -- At time scale 1 a retry for want of funds is due at once on the first seven days of a month;
  -- later in the month it is due on the next first of a month, at most 31 days away.
  pub salary_window_due_at-in_window :
      (zone : ℕ) (now : Time) (time_scale : F)
      → fl.eq time_scale (fl.of_int (pos 1)) ≡ true
      → let due = salary_window_due_at zone now time_scale in
        ((day_of_month zone now ≤ 7) × (due ≡ now))
        ⊎ ((7 < day_of_month zone now)
            × (day_of_month zone due ≡ 1)
            × (now < due)
            × (due ≤ now + 31 * nanos_per_day))
  salary_window_due_at-in_window zone now time_scale one = elim (dec_lt 7 (day_of_month zone now)) [
    | yes late ↦
        rw (salary-later zone now time_scale one late)
          (let f = first_of_next_month-IsFirst zone now in inr (late, f.0, f.1, f.2))
    | no early ↦ inl (omega arith, salary-now zone now time_scale one (omega arith))
  ]
