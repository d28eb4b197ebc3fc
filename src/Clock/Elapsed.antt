-- ===== src/Clock/Elapsed.antt =====
-- `GameTime::update`: runs of the clock within a month, and over its end.
use sourcemud.Base.{ℕ, ◌+◌, ◌*◌, ◌%◌, ◌^◌, ◌≤◌, ◌<◌, ◌≡◌, some, arith, refl}
use sourcemud.Base.Lists.{length}
use sourcemud.Base.Tests.{ltb, if◌then◌else◌}
use sourcemud.Clock.{Calendar, GameTime, ticks_per_hour, days_in_month, update}
use sourcemud.Clock.Carry.{
  Runs, clip_time-Runs, total_ticks, days_in_month_same, SameMonth, carry_SameMonth, days_stay,
  Wrapped, days_wrap,
}
use sourcemud.Clock.Clip.{IsValid, IsStored, IsNormal, clip_time-IsNormal, days_in_month_lt}

module _ (c : Calendar) (t : GameTime) (v : IsValid c) (stored : IsStored t) (hour_lt : t.hour < 24)
    (month_pos : 1 ≤ t.month) (month_le : t.month ≤ length c.months) (day_pos : 1 ≤ t.day)
    {r : GameTime} (w : Runs c t r) where
  within :
      total_ticks t < (days_in_month c t + 1) * (24 * ticks_per_hour)
      → total_ticks t < 2 ^ 16 * (24 * ticks_per_hour)
      → SameMonth t r
  within h small =
      let (same, low, low') = carry_SameMonth t stored.ticks_lt (omega arith) c small w in
      let days = days_in_month_same c t w.t₂ same.year_eq same.month_eq in
      let kept = days_stay c w.t₂ (omega arith) (omega arith) w.days w.years in
      ground (arith, w.result)

  beyond :
      (days_in_month c t + 1) * (24 * ticks_per_hour) ≤ total_ticks t
      → total_ticks t < (days_in_month c t + 2) * (24 * ticks_per_hour)
      → total_ticks t < 2 ^ 16 * (24 * ticks_per_hour)
      → Wrapped c t r
  beyond h h' small =
      let (same, low, low') = carry_SameMonth t stored.ticks_lt (omega arith) c small w in
      let days = days_in_month_same c t w.t₂ same.year_eq same.month_eq in
      let kept = days_wrap c w.t₂ v (omega arith) (omega arith) (omega arith) w.days w.years in
      ground (arith, w.result)

-- The time with more ticks in its hour, as a `uint16` holds their sum.
abbrev pub with_ticks : ℕ → GameTime → GameTime
with_ticks n t = record t { ticks_in_hour = (t.ticks_in_hour + n) % 2 ^ 16 }

module _ (c : Calendar) (t : GameTime) (n : ℕ) (v : IsValid c) (stored : IsStored t)
    (normal : IsNormal c t) where
  with_ticks-IsStored : IsStored (with_ticks n t)
  with_ticks-IsStored = ground arith

  -- On a calendar of 1 to 255 months, each with 1 to 65533 days, and from a time of it: let an
  -- update add any number of ticks to those of the hour, modulo 2^16. If the time with that sum as
  -- the ticks of its hour is still within the month, the update ends, at the time of the calendar
  -- with the same total of ticks, in the same month and year.
  pub update_within_month :
      total_ticks (with_ticks n t) < (days_in_month c t + 1) * (24 * ticks_per_hour)
      → (r : GameTime) × (update c n t ≡ some r)
        × IsNormal c r
        × (total_ticks r ≡ total_ticks (with_ticks n t))
        × (r.month ≡ t.month)
        × (r.year ≡ t.year)
  unfolding update
  update_within_month h =
      let (r, e, normal') = clip_time-IsNormal c v (with_ticks n t) with_ticks-IsStored in
      let days = days_in_month_same c t (with_ticks n t) refl refl in
      let less = days_in_month_lt c t v normal.month_pos normal.month_le in
      let same =
        within c (with_ticks n t) v with_ticks-IsStored normal.hour_lt normal.month_pos
          normal.month_le normal.day_pos (clip_time-Runs c (with_ticks n t) e) (omega arith)
          (omega arith) in
      (r, e, normal', ground arith, same.month_eq, same.year_eq)

  -- On a calendar of 1 to 255 months, each with 1 to 65533 days, and from a time of it: let an
  -- update add any number of ticks to those of the hour, modulo 2^16. If the time with that sum as
  -- the ticks of its hour is past the end of the month, the update ends, on the first day of the
  -- next month, or of the first month after the last one; in either case the year stays as it was.
  pub update_past_month :
      (days_in_month c t + 1) * (24 * ticks_per_hour) ≤ total_ticks (with_ticks n t)
      → (r : GameTime) × (update c n t ≡ some r)
        × IsNormal c r
        × (r.day ≡ 1)
        × (r.month ≡ (if ltb t.month (length c.months) then t.month + 1 else 1))
        × (r.year ≡ t.year)
  unfolding update
  update_past_month h =
      let (r, e, normal') = clip_time-IsNormal c v (with_ticks n t) with_ticks-IsStored in
      let days = days_in_month_same c t (with_ticks n t) refl refl in
      let less = days_in_month_lt c t v normal.month_pos normal.month_le in
      let (year, day, month) =
        beyond c (with_ticks n t) v with_ticks-IsStored normal.hour_lt normal.month_pos
          normal.month_le normal.day_pos (clip_time-Runs c (with_ticks n t) e) (omega arith)
          (omega arith) (omega arith) in
      (r, e, normal', day, month, year)
