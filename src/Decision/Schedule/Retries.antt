-- ===== src/Decision/Schedule/Retries.antt =====
-- When a scheduled retry is due: never for a dead instrument or a risk hold, and never inside a
-- mandate's notification time (schedule.go).
use momotaro.Prelude.{ℕ, ◌≤◌, ◌≡◌, refl, ◌↔◌, ◌⊎◌, inl, inr, none, some, arith, Option-cases}
use momotaro.Platform.Float.{Float}
use momotaro.Platform.Time.{Time, Duration, add}
use momotaro.Proto.{RootCauseBucket, RecordType}
use momotaro.Decision.Schedule.{
  retry_due_at, base_retry_due_at, mandate_lead_time_floor, scale_duration, floored,
}

module _ (F : Type 0) ⦃fl : Float F⦄ where
  base-none_iff :
      (zone : ℕ) (b : RootCauseBucket) (now : Time) (delay : Duration) (time_scale : F)
      → (base_retry_due_at zone b now delay time_scale ≡ none)
        ↔ ((b ≡ RootCauseBucket.hard_decline) ⊎ (b ≡ RootCauseBucket.risk_hold))
  unfolding base_retry_due_at
  base-none_iff zone RootCauseBucket.unspecified now delay time_scale = ground arith
  base-none_iff zone RootCauseBucket.hard_decline now delay time_scale = (λ _. inl refl, λ _. refl)
  base-none_iff zone RootCauseBucket.risk_hold now delay time_scale = (λ _. inr refl, λ _. refl)
  base-none_iff zone _ now delay time_scale = ground arith

  -- A retry gets no due time exactly for a hard decline and a risk hold, whatever the record's
  -- type, the delays and the time scale.
  pub retry_due_at-none_iff :
      (zone : ℕ) (b : RootCauseBucket) (type : RecordType) (now : Time) (delay lead_time : Duration)
      (time_scale : F)
      → (retry_due_at zone b type now delay lead_time time_scale ≡ none)
        ↔ ((b ≡ RootCauseBucket.hard_decline) ⊎ (b ≡ RootCauseBucket.risk_hold))
  unfolding retry_due_at
  retry_due_at-none_iff zone b type now delay lead_time time_scale =
      let base = base-none_iff zone b now delay time_scale in
      elim (Option-cases (base_retry_due_at zone b now delay time_scale)) [
        | inl e ↦ rw (e, retry_due_at) (λ _. base.0 e, λ _. refl)
        | inr (due, e) ↦ rw (e, retry_due_at) (λ h. cc, λ h. absurd (cc (base.1 h)))
      ]

  -- A mandate's retry is due at the later of two times: the one its bucket asks for, and the end
  -- of the scaled notification time from now.
  pub retry_due_at-mandate :
      (zone : ℕ) (b : RootCauseBucket) (now : Time) (delay lead_time : Duration) (time_scale : F)
      {base : Time}
      → base_retry_due_at zone b now delay time_scale ≡ some base
      → (due : Time) × (retry_due_at zone b RecordType.mandate now delay lead_time time_scale
          ≡ some due)
        × (add now (scale_duration lead_time time_scale) ≤ due)
        × (base ≤ due)
        × ((due ≡ base) ⊎ (due ≡ add now (scale_duration lead_time time_scale)))
  unfolding retry_due_at mandate_lead_time_floor
  retry_due_at-mandate zone b now delay lead_time time_scale {base} e = (
    floored RecordType.mandate base now lead_time time_scale,
    rw (e, retry_due_at) refl,
    ground arith,
    ground arith,
    ground arith,
  )
