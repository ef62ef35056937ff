-- ===== src/Platform/Calendar/Years.antt =====
-- Moving on from a day inside its year, and over the turn of the year.
use momotaro.Prelude.{ℕ, zero, suc, ◌+◌, ◌-◌, ◌≤◌, ◌<◌, ◌≡◌, refl, ◌⊎◌, inl, inr, arith}
use native.Mathlib.Decide.{dec_lt}
use momotaro.Platform.Calendar.{days_in_year, year_walk, days_per_era}

-- The days of `k` years from year `y`.
pub total : ℕ → ℕ → ℕ
total zero y = 0
total (suc k) y = days_in_year y + total k (y + 1)

pub year_walk_here : (k y n : ℕ) → n < days_in_year y → year_walk (suc k) y n ≡ (y, n)
unfolding year_walk
year_walk_here k y n h = ground arith

year_walk_there :
    (k y n : ℕ)
    → days_in_year y ≤ n
    → year_walk (suc k) y n ≡ year_walk k (y + 1) (n - days_in_year y)
unfolding year_walk
year_walk_there k y n h = ground arith

-- Where `j` more days lead, from day `n` of the walk.
pub record Onward (k y n j : ℕ) : Type 0 where
  pub inside : (year_walk k y n).1 < days_in_year (year_walk k y n).0
  pub same_year :
      (year_walk k y n).1 + j < days_in_year (year_walk k y n).0
      → (n + j < total k y)
        × (year_walk k y (n + j) ≡ ((year_walk k y n).0, (year_walk k y n).1 + j))
  pub new_year :
      (year_walk k y n).1 + j ≡ days_in_year (year_walk k y n).0
      → (n + j ≡ total k y) ⊎ ((n + j < total k y) × ((year_walk k y (n + j)).1 ≡ 0))

pub days_pos : (y : ℕ) → 0 < days_in_year y
days_pos y = ground arith

total-zero : (k y : ℕ) → (total k y ≡ 0) ⊎ ((0 < total k y) × ((year_walk k y 0).1 ≡ 0))
unfolding total
total-zero zero y = inl refl
total-zero (suc k) y = inr (omega (arith, days_pos y), rw (year_walk_here k y 0 (days_pos y)) refl)

pub year_walk-Onward : (k y n j : ℕ) → n < total k y → Onward k y n j
unfolding total
year_walk-Onward zero y n j h = absurd (omega arith)
year_walk-Onward (suc k) y n j h = elim (dec_lt n (days_in_year y)) [
  | yes here ↦ first here
  | no there ↦ later (omega arith) (year_walk-Onward k (y + 1) (n - days_in_year y) j (omega arith))
]
  where
    first : n < days_in_year y → Onward (suc k) y n j
    first here = record {
      inside = rw (year_walk_here k y n here) here;
      same_year = rw (year_walk_here k y n here) (λ s. (omega arith, year_walk_here k y (n + j) s));
      new_year = rw (year_walk_here k y n here) (λ e. elim (total-zero k (y + 1)) [
        | inl none_left ↦ inl (omega arith)
        | inr (more, start) ↦ inr (
          omega arith,
          rw (e, year_walk_there k y (days_in_year y) (omega arith))
              (let z : days_in_year y - days_in_year y ≡ 0 = omega arith in rw z start),
        )
      ]);
    }

    later : days_in_year y ≤ n → Onward k (y + 1) (n - days_in_year y) j → Onward (suc k) y n j
    later there next =
        let e : n + j - days_in_year y ≡ n - days_in_year y + j = omega arith in
        record {
          inside = rw (year_walk_there k y n there) next.inside;
          same_year = rw (year_walk_there k y n there) (λ s.
              let (small, at) = next.same_year s in
              (omega arith, rw (year_walk_there k y (n + j) (omega arith), e) at));
          new_year = rw (year_walk_there k y n there) (λ s. elim (next.new_year s) [
            | inl end ↦ inl (omega arith)
            | inr (small, at) ↦
                inr (omega arith, rw (year_walk_there k y (n + j) (omega arith), e) at)
          ]);
        }

pub total-era : total 400 1 ≡ days_per_era
unfolding total
total-era = refl
