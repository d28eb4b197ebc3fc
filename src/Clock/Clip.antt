-- ===== src/Clock/Clip.antt =====
-- `GameTime::clipTime`: it ends, at a time of the calendar.
use sourcemud.Base.{ℕ, ◌+◌, ◌-◌, ◌*◌, ◌^◌, ◌≤◌, ◌<◌, ◌≡◌, ◌⊎◌, true, false, some, arith}
use sourcemud.Base.Lists.{length, All, All-get_elem?, get_elem?_in_range}
use sourcemud.Base.Loops.{loop, Ends, loop-Ends}
use sourcemud.Base.Tests.{ltb, if◌then◌else◌}
use sourcemud.Clock.{
  Calendar, GameTime, ticks_per_hour, month_days, days_in_month, ticks_over, carry_hour, hours_over,
  carry_day, days_over, carry_month, months_over, carry_year, day_floor, month_floor, clip_time,
}

-- A calendar on which `clipTime` can end. The fields' types give no more than that a month has fewer
-- than 65536 days, and `GameCalendar::load` only sees to it that there is a month.
pub record IsValid (c : Calendar) : Type 0 where
  pub some_month : 1 ≤ length c.months
  pub few_months : length c.months < 2 ^ 8
  pub some_days : All (λ m. 1 ≤ m.day_count) c.months
  pub few_days : All (λ m. m.day_count + 2 < 2 ^ 16) c.months

-- The fields' types.
pub record IsStored (t : GameTime) : Type 0 where
  pub year_lt : t.year < 2 ^ 16
  pub day_lt : t.day < 2 ^ 16
  pub ticks_lt : t.ticks_in_hour < 2 ^ 16
  pub month_lt : t.month < 2 ^ 8
  pub hour_lt : t.hour < 2 ^ 8

-- A time of the calendar.
pub record IsNormal (c : Calendar) (t : GameTime) : Type 0 where
  pub ticks_lt : t.ticks_in_hour < ticks_per_hour
  pub hour_lt : t.hour < 24
  pub month_pos : 1 ≤ t.month
  pub month_le : t.month ≤ length c.months
  pub day_pos : 1 ≤ t.day
  pub day_le : t.day ≤ days_in_month c t

pub days_in_month_pos :
    (c : Calendar) (t : GameTime)
    → IsValid c
    → 1 ≤ t.month
    → t.month ≤ length c.months
    → 1 ≤ days_in_month c t
unfolding days_in_month month_days
days_in_month_pos c t v lo hi =
    let (m, e) = get_elem?_in_range c.months (t.month - 1) (omega arith) in
    let one = All-get_elem? (λ m. 1 ≤ m.day_count) c.months (t.month - 1) m v.some_days e in
    let few = All-get_elem? (λ m. m.day_count + 2 < 2 ^ 16) c.months (t.month - 1) m v.few_days e in
    ground arith

pub days_in_month_lt :
    (c : Calendar) (t : GameTime)
    → IsValid c
    → 1 ≤ t.month
    → t.month ≤ length c.months
    → days_in_month c t + 1 < 2 ^ 16
unfolding days_in_month month_days
days_in_month_lt c t v lo hi =
    let (m, e) = get_elem?_in_range c.months (t.month - 1) (omega arith) in
    let few = All-get_elem? (λ m. m.day_count + 2 < 2 ^ 16) c.months (t.month - 1) m v.few_days e in
    ground arith

pub days_in_month_out : (c : Calendar) (t : GameTime) → ltb t.month 1 ≡ true → days_in_month c t ≡ 0
unfolding days_in_month
days_in_month_out c t h = ground arith

pub days_in_month_beyond :
    (c : Calendar) (t : GameTime) → length c.months < t.month → days_in_month c t ≡ 0
unfolding days_in_month
days_in_month_beyond c t h = ground arith

-- The steps that a `uint8` month takes until it is in range.
abbrev away : Calendar → ℕ → ℕ
away c m = if ltb m 1 then 1 else if ltb (length c.months) m then 257 - m else 0

abbrev day_measure : Calendar → GameTime → ℕ
day_measure c t = t.day * 257 + away c t.month

carry_month_less :
    (c : Calendar) (t : GameTime)
    → IsValid c
    → t.month < 2 ^ 8
    → days_over c t ≡ true
    → day_measure c (carry_month c t) < day_measure c t
carry_month_less c t v m h =
    ground (arith, days_in_month_pos c t v, days_in_month_out c t, days_in_month_beyond c t)

-- What holds after each loop.
abbrev AfterTicks : GameTime → Type 0
AfterTicks s = IsStored s × (s.ticks_in_hour < ticks_per_hour)

abbrev AfterHours : GameTime → Type 0
AfterHours s = IsStored s × (s.ticks_in_hour < ticks_per_hour) × (s.hour < 24)

-- A day past the first lies in its month; so do all days once the month is in range.
abbrev AfterDays : Calendar → GameTime → Type 0
AfterDays c s =
    AfterHours s × (1 ≤ s.day) × (((1 ≤ s.month) × (s.day ≤ days_in_month c s)) ⊎ (s.day ≡ 1))

carry_ticks :
    (t : GameTime)
    → IsStored t
    → (r : GameTime) × (loop (t.ticks_in_hour + 1) ticks_over carry_hour t ≡ some r) × AfterTicks r
carry_ticks t h =
    let (r, e, k, stop) =
      loop-Ends IsStored (λ s. s.ticks_in_hour) ticks_over carry_hour (λ s k go. ground arith)
        (t.ticks_in_hour + 1) t (omega arith) h in
    (r, e, (k, ground arith))

carry_hours :
    (t : GameTime)
    → AfterTicks t
    → (r : GameTime) × (loop (t.hour + 1) hours_over carry_day t ≡ some r) × AfterHours r
carry_hours t h =
    let (r, e, k, stop) =
      loop-Ends AfterTicks (λ s. s.hour) hours_over carry_day (λ s k go. ground arith) (t.hour + 1)
        t (omega arith) h in
    (r, e, (k.0, k.1, ground arith))

module _ (c : Calendar) (v : IsValid c) where
  day_floor-AfterDays :
      (t : GameTime) → AfterHours t → days_over c t ≡ false → AfterDays c (day_floor t)
  day_floor-AfterDays t h stop = ground (arith, days_in_month_out c t)

  carry_days :
      (t : GameTime)
      → AfterHours t
      → (r : GameTime) × (loop (t.day * 257 + 258) (days_over c) (carry_month c) t ≡ some r)
        × AfterDays c (day_floor r)
  carry_days t h =
      let (r, e, k, stop) =
        loop-Ends AfterHours (day_measure c) (days_over c) (carry_month c)
          (λ s k go. (ground arith, carry_month_less c s v k.0.month_lt go)) (t.day * 257 + 258) t
          (ground arith) h in
      (r, e, day_floor-AfterDays r k stop)

  carry_years :
      (t : GameTime)
      → AfterDays c t
      → Ends (AfterDays c) (months_over c) (loop (t.month + 1) (months_over c) (carry_year c) t)
  carry_years t h =
      loop-Ends (AfterDays c) (λ s. s.month) (months_over c) (carry_year c)
        (λ s k go. ground (arith, v.some_month, days_in_month_beyond c s)) (t.month + 1) t
        (omega arith) h

  month_floor-IsNormal :
      (t : GameTime) → AfterDays c t → months_over c t ≡ false → IsNormal c (month_floor t)
  month_floor-IsNormal t h stop =
      ground (arith, v.some_month, days_in_month_pos c (month_floor t) v)

  -- On a calendar of 1 to 255 months, each with 1 to 65533 days, `clipTime` ends for any stored fields
  -- of the time, at a time of the calendar.
  pub clip_time-IsNormal :
      (t : GameTime) → IsStored t → (r : GameTime) × (clip_time c t ≡ some r) × IsNormal c r
  unfolding clip_time
  clip_time-IsNormal t h =
      let (t₁, e₁, h₁) = carry_ticks t h in
      let (t₂, e₂, h₂) = carry_hours t₁ h₁ in
      let (t₃, e₃, h₃) = carry_days t₂ h₂ in
      let (t₄, e₄, h₄, s₄) = carry_years (day_floor t₃) h₃ in
      (month_floor t₄, rw (e₁, e₂, e₃, e₄), month_floor-IsNormal t₄ h₄ s₄)
