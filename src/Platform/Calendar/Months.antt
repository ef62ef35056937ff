-- ===== src/Platform/Calendar/Months.antt =====
-- `first_of_next_month` is a first of a month, and the next one.
use momotaro.Prelude.{
  ℕ, ◌+◌, ◌-◌, ◌*◌, ◌/◌, ◌%◌, ◌≤◌, ◌<◌, ◌≡◌, refl, sym, ◌∙◌, ◌⊎◌, inl, inr, Bool, true, false, List,
  [], ◌∷◌, All, arith, Bool-cases,
}
use mathlib.Core.Path.{subst}
use native.Mathlib.Decide.{dec_lt}
use momotaro.Platform.Calendar.Years.{total, total-era, year_walk-Onward, days_pos}
use momotaro.Platform.Time.{Time, nanos_per_day}
use momotaro.Platform.Calendar.{
  is_leap, days_in_year, month_lengths, year_walk, month_walk, days_per_era, month_place,
  day_of_month, first_of_next_month,
}

abbrev sum : List ℕ → ℕ
sum [] = 0
sum (x ∷ xs) = x + sum xs

-- `j` days on from a day in its month is the first of the next month, or the end of the months.
record Next (ls : List ℕ) (n : ℕ) : Type 0 where
  inside : (month_walk ls n).0 < (month_walk ls n).1
  short : (month_walk ls n).1 ≤ 31
  step :
      let j = (month_walk ls n).1 - (month_walk ls n).0 in
      (n + j ≡ sum ls) ⊎ ((n + j < sum ls) × ((month_walk ls (n + j)).0 ≡ 0))

abbrev Lengths : List ℕ → Type 0
Lengths ls = All (λ l. (0 < l) × (l ≤ 31)) ls

walk-zero : (ls : List ℕ) → Lengths ls → 0 < sum ls → (month_walk ls 0).0 ≡ 0
unfolding month_walk
walk-zero [] a h = refl
walk-zero (l ∷ ls) (p, ps) h = ground arith

walk_here : (l : ℕ) (ls : List ℕ) (n : ℕ) → n < l → month_walk (l ∷ ls) n ≡ (n, l)
unfolding month_walk
walk_here l ls n h = ground arith

walk_there : (l : ℕ) (ls : List ℕ) (n : ℕ) → l ≤ n → month_walk (l ∷ ls) n ≡ month_walk ls (n - l)
unfolding month_walk
walk_there l ls n h = ground arith

month_walk-Next : (ls : List ℕ) (n : ℕ) → Lengths ls → n < sum ls → Next ls n
month_walk-Next [] n a h = absurd (omega arith)
month_walk-Next (l ∷ ls) n (p, ps) h = elim (dec_lt n l) [
  | yes here ↦ at_head here (dec_lt 0 (sum ls))
  | no there ↦ in_tail (omega arith) (month_walk-Next ls (n - l) ps (omega arith))
]
  where
    at_head : n < l → Dec (0 < sum ls) → Next (l ∷ ls) n
    at_head here (yes more) = record {
      inside = rw (walk_here l ls n here) here;
      short = rw (walk_here l ls n here) p.1;
      step = rw (walk_here l ls n here) (
          let e : n + (l - n) ≡ l = omega arith in
          let z : l - l ≡ 0 = omega arith in
          rw e (inr (omega arith, rw (walk_there l ls l (omega arith), z) (walk-zero ls ps more))));
    }
    at_head here (no last) = record {
      inside = rw (walk_here l ls n here) here;
      short = rw (walk_here l ls n here) p.1;
      step = rw (walk_here l ls n here) (inl (omega arith));
    }

    in_tail : l ≤ n → Next ls (n - l) → Next (l ∷ ls) n
    in_tail there next = record {
      inside = rw (walk_there l ls n there) next.inside;
      short = rw (walk_there l ls n there) next.short;
      step = rw (walk_there l ls n there) (elim next.step [
        | inl done ↦ inl (omega arith)
        | inr (more, first) ↦
            let w = month_walk ls (n - l) in
            let e : n + (w.1 - w.0) - l ≡ n - l + (w.1 - w.0) = omega arith in
            inr (omega arith, rw (walk_there l ls (n + (w.1 - w.0)) (omega arith), e) first)
      ]);
    }

month_lengths-Lengths : (leap : Bool) → Lengths (month_lengths leap)
month_lengths-Lengths true = omega arith
month_lengths-Lengths false = omega arith

sum-month_lengths : (y : ℕ) → sum (month_lengths (is_leap y)) ≡ days_in_year y
sum-month_lengths y = elim (Bool-cases (is_leap y)) [ inl e ↦ rw e refl | inr e ↦ rw e refl ]

era_add : (n j m : ℕ) → n % days_per_era + j ≡ m → m < days_per_era → (n + j) % days_per_era ≡ m
era_add n j m e h = omega arith

era_wrap : (n j : ℕ) → n % days_per_era + j ≡ days_per_era → (n + j) % days_per_era ≡ 0
era_wrap n j e = omega arith

abbrev months_of : ℕ → List ℕ
months_of y = month_lengths (is_leap y)

place-start : (y r : ℕ) → r ≡ 0 → (month_walk (months_of y) r).0 ≡ 0
place-start y r e = rw e (
    walk-zero (months_of y) (month_lengths-Lengths (is_leap y))
      (omega (arith, sum-month_lengths y, days_pos y)))

place-zero : (month_place 0).0 ≡ 0
unfolding month_place year_walk month_walk
place-zero = refl

place_at : (n m : ℕ) → n % days_per_era ≡ m → (year_walk 400 1 m).1 ≡ 0 → (month_place n).0 ≡ 0
unfolding month_place
place_at n m e start =
    subst (λ k. (month_walk (months_of (year_walk 400 1 k).0) (year_walk 400 1 k).1).0 ≡ 0) (sym e)
      (place-start (year_walk 400 1 m).0 (year_walk 400 1 m).1 start)

walk_zero_year : (year_walk 400 1 0).1 ≡ 0
unfolding year_walk
walk_zero_year = refl

place-new_year :
    (n j : ℕ)
    → (n % days_per_era + j ≡ total 400 1)
      ⊎ ((n % days_per_era + j < total 400 1) × ((year_walk 400 1 (n % days_per_era + j)).1 ≡ 0))
    → (month_place (n + j)).0 ≡ 0
place-new_year n j (inl e) = place_at (n + j) 0 (era_wrap n j (e ∙ total-era)) walk_zero_year
place-new_year n j (inr (small, start)) =
    place_at (n + j) (n % days_per_era + j)
      (era_add n j (n % days_per_era + j) refl (omega (arith, total-era))) start

-- The days that `first_of_next_month` adds lead to the first day of a month.
pub month_place-next :
    (n : ℕ) → let (d, l) = month_place n in (d < l) × (l ≤ 31) × ((month_place (n + (l - d))).0 ≡ 0)
unfolding month_place
month_place-next n =
    let m = n % days_per_era in
    let y = (year_walk 400 1 m).0 in
    let r = (year_walk 400 1 m).1 in
    let w = month_walk (months_of y) r in
    let j = w.1 - w.0 in
    let on = year_walk-Onward 400 1 m j (rw total-era (omega arith)) in
    let next =
      month_walk-Next (months_of y) r (month_lengths-Lengths (is_leap y))
        (rw (sum-month_lengths y) on.inside) in
    (
      next.inside,
      next.short,
      elim next.step [
        | inl done ↦ place-new_year n j (on.new_year (done ∙ sum-month_lengths y))
        | inr (more, first) ↦
            let (small, at) = on.same_year (rw (sum-month_lengths y) at more) in
            let below : m + j < days_per_era = rw total-era at small in
            rw (era_add n j (m + j) refl below, at) first
      ],
    )

-- The first of the next month is a day 1, lies after the given time, and by at most 31 days.
pub first_of_next_month-IsFirst :
    (zone : ℕ) (t : Time)
    → let u = first_of_next_month zone t in
      (day_of_month zone u ≡ 1) × (t < u) × (u ≤ t + 31 * nanos_per_day)
unfolding first_of_next_month day_of_month
first_of_next_month-IsFirst zone t =
    let n = (t + zone) / nanos_per_day in
    let (inside, short, first) = month_place-next n in
    let p = month_place n in
    let e : (t + (p.1 - p.0) * nanos_per_day + zone) / nanos_per_day ≡ n + (p.1 - p.0) =
      omega arith in
    (rw (e, first), omega arith, omega arith)

pub day_of_month-pos : (zone : ℕ) (t : Time) → 1 ≤ day_of_month zone t
unfolding day_of_month
day_of_month-pos zone t = omega arith
