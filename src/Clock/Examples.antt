-- ===== src/Clock/Examples.antt =====
-- Runs of the clock and of the calendar on a calendar of two short months.
use sourcemud.Base.{ℕ, ◌+◌, ◌*◌, ◌≤◌, ◌<◌, ◌≡◌, refl, some, [], ◌∷◌, arith}
use sourcemud.Base.Text.{codes, text_eq}
use sourcemud.Clock.{
  Calendar, GameTime, ticks_per_hour, days_in_month, month_days, clip_time, update, find_from,
  find_weekday,
}
use sourcemud.Clock.Carry.{total_ticks}
use sourcemud.Clock.Clip.{IsValid, IsStored, IsNormal, clip_time-IsNormal}
use sourcemud.Clock.Elapsed.{with_ticks, update_within_month, update_past_month}

abbrev short_calendar : Calendar
short_calendar = record {
  months =
      record { name = codes "Frost"; day_count = 3; leap_years = 4 }
      ∷ record { name = codes "Thaw"; day_count = 2; leap_years = 0 }
      ∷ [];
  holidays = [];
  weekdays = codes "Moonday" ∷ codes "Sunday" ∷ codes "Starday" ∷ [];
  day_text = [];
  night_text = [];
  sunrise_text = [];
  sunset_text = [];
}

-- One tick before midnight.
abbrev late : ℕ → ℕ → GameTime
late month day = record { year = 5; day = day; ticks_in_hour = 3599; month = month; hour = 23 }

short_calendar-IsValid : IsValid short_calendar
short_calendar-IsValid = omega arith

late-IsStored : IsStored (late 2 2)
late-IsStored = omega arith

late-IsNormal : IsNormal short_calendar (late 2 2)
unfolding days_in_month month_days
late-IsNormal = omega arith

early-IsNormal : IsNormal short_calendar (late 1 2)
unfolding days_in_month month_days
early-IsNormal = omega arith

early-within :
    total_ticks (with_ticks 65537 (late 1 2))
    < (days_in_month short_calendar (late 1 2) + 1) * (24 * ticks_per_hour)
unfolding days_in_month month_days
early-within = omega arith

late-past :
    (days_in_month short_calendar (late 2 2) + 1) * (24 * ticks_per_hour)
    ≤ total_ticks (with_ticks 1 (late 2 2))
unfolding days_in_month month_days
late-past = omega arith

clip_time-IsNormal_example :
    (r : GameTime) × (clip_time short_calendar (late 2 9) ≡ some r) × IsNormal short_calendar r
clip_time-IsNormal_example =
    clip_time-IsNormal short_calendar short_calendar-IsValid (late 2 9) (omega arith)

-- 65537 ticks count as one.
update_within_month_example :
    (r : GameTime) × (update short_calendar 65537 (late 1 2) ≡ some r)
    × IsNormal short_calendar r
    × (total_ticks r ≡ total_ticks (with_ticks 65537 (late 1 2)))
    × (r.month ≡ 1)
    × (r.year ≡ 5)
update_within_month_example =
    update_within_month short_calendar (late 1 2) 65537 short_calendar-IsValid (omega arith)
      early-IsNormal early-within

-- The last tick of year 5 is followed by the first day of year 5.
update_past_month_example :
    (r : GameTime) × (update short_calendar 1 (late 2 2) ≡ some r)
    × IsNormal short_calendar r
    × (r.day ≡ 1)
    × (r.month ≡ 1)
    × (r.year ≡ 5)
update_past_month_example =
    update_past_month short_calendar (late 2 2) 1 short_calendar-IsValid late-IsStored late-IsNormal
      late-past

find_weekday_test : find_weekday short_calendar (codes "Sunday") ≡ some 1
unfolding find_weekday find_from text_eq
find_weekday_test = refl
