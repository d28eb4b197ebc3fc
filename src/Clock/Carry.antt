-- ===== src/Clock/Carry.antt =====
-- The four loops of `GameTime::clipTime` taken apart: what each carries into the next field.
use sourcemud.Base.{ℕ, ◌+◌, ◌*◌, ◌^◌, ◌≤◌, ◌<◌, ◌≡◌, ◌⊎◌, some, arith, refl, true, false}
use sourcemud.Base.Loops.{loop, loop-Keeps}
use sourcemud.Base.Lists.{length}
use sourcemud.Base.Options.{>>=-eq-some}
use sourcemud.Base.Tests.{ltb, if◌then◌else◌}
use sourcemud.Clock.{
  Calendar, GameTime, ticks_per_hour, days_in_month, month_days, ticks_over, carry_hour, hours_over,
  carry_day, days_over, carry_month, months_over, carry_year, day_floor, month_floor, clip_time,
}
use sourcemud.Clock.Clip.{IsValid, days_in_month_pos, days_in_month_out, days_in_month_beyond}

-- The four runs behind a result of `clipTime`.
pub record Runs (c : Calendar) (t r : GameTime) : Type 0 where
  pub t₁ : GameTime
  pub t₂ : GameTime
  pub t₃ : GameTime
  pub t₄ : GameTime
  pub ticks : loop (t.ticks_in_hour + 1) ticks_over carry_hour t ≡ some t₁
  pub hours : loop (t₁.hour + 1) hours_over carry_day t₁ ≡ some t₂
  pub days : loop (t₂.day * 257 + 258) (days_over c) (carry_month c) t₂ ≡ some t₃
  pub years :
      loop ((day_floor t₃).month + 1) (months_over c) (carry_year c) (day_floor t₃) ≡ some t₄
  pub result : month_floor t₄ ≡ r

pub clip_time-Runs :
    (c : Calendar) (t : GameTime) {r : GameTime} → clip_time c t ≡ some r → Runs c t r
unfolding clip_time
clip_time-Runs c t e =
    let (t₁, e₁, f₁) = >>=-eq-some (loop (t.ticks_in_hour + 1) ticks_over carry_hour t) _ e in
    let (t₂, e₂, f₂) = >>=-eq-some (loop (t₁.hour + 1) hours_over carry_day t₁) _ f₁ in
    let (t₃, e₃, f₃) =
      >>=-eq-some (loop (t₂.day * 257 + 258) (days_over c) (carry_month c) t₂) _ f₂ in
    let (t₄, e₄, f₄) =
      >>=-eq-some (loop ((day_floor t₃).month + 1) (months_over c) (carry_year c) (day_floor t₃)) _
        f₃ in
    record {
      t₁ = t₁;
      t₂ = t₂;
      t₃ = t₃;
      t₄ = t₄;
      ticks = e₁;
      hours = e₂;
      days = e₃;
      years = e₄;
      result = cc;
    }

-- The ticks since day 0 of the month.
abbrev pub total_ticks : GameTime → ℕ
total_ticks t = (t.day * 24 + t.hour) * ticks_per_hour + t.ticks_in_hour

pub days_in_month_same :
    (c : Calendar) (t u : GameTime)
    → u.year ≡ t.year
    → u.month ≡ t.month
    → days_in_month c u ≡ days_in_month c t
unfolding days_in_month month_days
days_in_month_same c t u y m = rw (y, m)

-- Carrying keeps the month, the year and the ticks of `t`.
pub record SameMonth (t s : GameTime) : Type 0 where
  pub year_eq : s.year ≡ t.year
  pub month_eq : s.month ≡ t.month
  pub total_eq : total_ticks s ≡ total_ticks t

module _ (t : GameTime) (ticks_lt : t.ticks_in_hour < 2 ^ 16) (hour_lt : t.hour < 200) where
  abbrev KeepsTicks : GameTime → Type 0
  KeepsTicks s =
      SameMonth t s
      × (s.day ≡ t.day)
      × (s.hour * ticks_per_hour + s.ticks_in_hour ≡ t.hour * ticks_per_hour + t.ticks_in_hour)

  ticks_SameMonth :
      {r : GameTime}
      → loop (t.ticks_in_hour + 1) ticks_over carry_hour t ≡ some r
      → SameMonth t r × (r.ticks_in_hour < ticks_per_hour)
  ticks_SameMonth e =
      let start : KeepsTicks t =
        (record { year_eq = refl; month_eq = refl; total_eq = refl }, refl, refl) in
      let (k, stop) =
        loop-Keeps KeepsTicks ticks_over carry_hour (λ s k go. ground arith) (t.ticks_in_hour + 1) t
          start e in
      (k.0, ground arith)

  abbrev KeepsHours : GameTime → Type 0
  KeepsHours s = SameMonth t s × (s.ticks_in_hour < ticks_per_hour)

  hours_SameMonth :
      (u : GameTime) {r : GameTime}
      → KeepsHours u
      → total_ticks t < 2 ^ 16 * (24 * ticks_per_hour)
      → loop (u.hour + 1) hours_over carry_day u ≡ some r
      → KeepsHours r × (r.hour < 24)
  hours_SameMonth u k small e =
      let (k, stop) =
        loop-Keeps KeepsHours hours_over carry_day (λ s k go. ground arith) (u.hour + 1) u k e in
      (k, ground arith)

  pub carry_SameMonth :
      (c : Calendar) {r : GameTime}
      → total_ticks t < 2 ^ 16 * (24 * ticks_per_hour)
      → (w : Runs c t r)
      → SameMonth t w.t₂ × (w.t₂.ticks_in_hour < ticks_per_hour) × (w.t₂.hour < 24)
  carry_SameMonth c small w =
      let (same, low) = hours_SameMonth w.t₁ (ticks_SameMonth w.ticks) small w.hours in
      (same.0, same.1, low)

module _ (c : Calendar) (u : GameTime) where
  abbrev Stays : GameTime → Type 0
  Stays s = SameMonth u s × (s.day ≡ u.day) × (s.day ≤ days_in_month c s)

  -- A day of the month is left alone by the last two loops.
  pub days_stay :
      {t₃ t₄ : GameTime}
      → 1 ≤ u.day
      → u.day ≤ days_in_month c u
      → loop (u.day * 257 + 258) (days_over c) (carry_month c) u ≡ some t₃
      → loop ((day_floor t₃).month + 1) (months_over c) (carry_year c) (day_floor t₃) ≡ some t₄
      → SameMonth u (month_floor t₄)
  days_stay {t₃} {t₄} one le e₃ e₄ =
      let (k, stop) =
        loop-Keeps Stays (days_over c) (carry_month c) (λ s k go. ground arith) (u.day * 257 + 258)
          u (record { year_eq = refl; month_eq = refl; total_eq = refl }, refl, le) e₃ in
      let (k', stop') =
        loop-Keeps Stays (months_over c) (carry_year c)
          (λ s k go. ground (arith, days_in_month_beyond c s)) ((day_floor t₃).month + 1)
          (day_floor t₃) (ground arith) e₄ in
      ground (arith, days_in_month_out c t₄)

  -- One day past the month, the third loop goes to the next month. From the last month it goes on,
  -- one month number at a time, until the `uint8` comes round.
  abbrev Wraps : GameTime → Type 0
  Wraps s =
      (s.year ≡ u.year)
      × (s.month < 2 ^ 8)
      × (((s.month ≡ u.month) × (s.day ≡ days_in_month c s + 1))
          ⊎ ((s.day ≡ 1)
              × (((u.month < length c.months) × (s.month ≡ u.month + 1))
                  ⊎ ((u.month ≡ length c.months) × ((length c.months < s.month) ⊎ (s.month < 2))))))

  abbrev pub Wrapped : GameTime → Type 0
  Wrapped s =
      (s.year ≡ u.year)
      × (s.day ≡ 1)
      × (s.month ≡ (if ltb u.month (length c.months) then u.month + 1 else 1))

  module _ (v : IsValid c) (lo : 1 ≤ u.month) (hi : u.month ≤ length c.months) where
    carry_month-Wraps : (s : GameTime) → Wraps s → days_over c s ≡ true → Wraps (carry_month c s)
    carry_month-Wraps s k go = ground (
      arith,
      v.some_month,
      v.few_months,
      days_in_month_beyond c s,
      days_in_month_out c s,
      days_in_month_pos c s v,
    )

    Wraps-Wrapped : (s : GameTime) → Wraps s → days_over c s ≡ false → Wrapped s
    Wraps-Wrapped s k stop =
        ground (arith, v.some_month, days_in_month_beyond c s, days_in_month_out c s)

    pub days_wrap :
        {t₃ t₄ : GameTime}
        → u.day ≡ days_in_month c u + 1
        → loop (u.day * 257 + 258) (days_over c) (carry_month c) u ≡ some t₃
        → loop ((day_floor t₃).month + 1) (months_over c) (carry_year c) (day_floor t₃) ≡ some t₄
        → Wrapped (month_floor t₄)
    days_wrap {t₃} {t₄} over e₃ e₄ =
        let (k, stop) =
          loop-Keeps Wraps (days_over c) (carry_month c) carry_month-Wraps (u.day * 257 + 258) u
            (ground (arith, v.few_months)) e₃ in
        let w = Wraps-Wrapped t₃ k stop in
        let (k', stop') =
          loop-Keeps Wrapped (months_over c) (carry_year c) (λ s k go. ground (arith, v.some_month))
            ((day_floor t₃).month + 1) (day_floor t₃) (ground arith) e₄ in
        ground (arith, v.some_month)
