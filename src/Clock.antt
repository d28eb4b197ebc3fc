-- ===== src/Clock.antt =====
-- include/mud/gametime.h, src/mud/time.cc, src/mud/calendar.cc, include/mud/clock.h: the game's
-- calendar and its clock. Fields of a machine type hold its value, and each operation writes out the
-- wrap-around of that type. The calendar that the source reads from the global `MTime` is an
-- argument.
pub mod Clip
pub mod Carry
pub mod Elapsed
pub mod Weekday
pub mod Examples
use sourcemud.Base.{
  ℕ, ◌+◌, ◌-◌, ◌*◌, ◌/◌, ◌%◌, ◌^◌, Bool, not, ◌&&◌, ◌||◌, Option, none, some, List, [], ◌∷◌, map,
}
use sourcemud.Base.Int.{ℤ, positive, magnitude}
use sourcemud.Base.Lists.{length, get_elem?}
use sourcemud.Base.Loops.{loop}
use sourcemud.Base.Options.{◌>>=◌}
use sourcemud.Base.Tests.{ltb, leb, ◌==◌, if◌then◌else◌}
use sourcemud.Base.Text.{Text, text_eq}

pub record Month : Type 0 where
  pub name : Text
  pub day_count : ℕ
  pub leap_years : ℕ

pub record Holiday : Type 0 where
  pub name : Text
  pub year : ℤ
  pub day : ℤ
  pub weekday : ℤ
  pub wdindex : ℤ
  pub month : ℤ

pub record Calendar : Type 0 where
  pub months : List Month
  pub holidays : List Holiday
  pub weekdays : List Text
  pub day_text : List Text
  pub night_text : List Text
  pub sunrise_text : List Text
  pub sunset_text : List Text

pub record GameTime : Type 0 where
  pub year : ℕ
  pub day : ℕ
  pub ticks_in_hour : ℕ
  pub month : ℕ
  pub hour : ℕ

abbrev pub ticks_per_round : ℕ
ticks_per_round = 4

abbrev pub game_time_scale : ℕ
game_time_scale = 4

abbrev pub rounds_to_ticks : ℕ → ℕ
rounds_to_ticks s = s * ticks_per_round

abbrev pub ticks_per_hour : ℕ
ticks_per_hour = rounds_to_ticks (60 * 60 / game_time_scale)

-- The result is a `uint16`.
month_days : GameTime → Option Month → ℕ
month_days t none = 0
month_days t (some m) =
    if not (m.leap_years == 0) && t.year % m.leap_years == 0
    then (m.day_count + 1) % 2 ^ 16
    else m.day_count

pub days_in_month : Calendar → GameTime → ℕ
days_in_month c t =
    if ltb t.month 1 || ltb (length c.months) t.month
    then 0
    else month_days t (get_elem? c.months (t.month - 1))

-- The four loops of `clipTime`, test and body. `hour` and `month` are `uint8`, `day` and `year`
-- `uint16`.
abbrev ticks_over : GameTime → Bool
ticks_over t = leb ticks_per_hour t.ticks_in_hour

abbrev carry_hour : GameTime → GameTime
carry_hour t = record t {
  ticks_in_hour = t.ticks_in_hour - ticks_per_hour;
  hour = (t.hour + 1) % 2 ^ 8;
}

abbrev hours_over : GameTime → Bool
hours_over t = leb 24 t.hour

abbrev carry_day : GameTime → GameTime
carry_day t = record t { hour = t.hour - 24; day = (t.day + 1) % 2 ^ 16 }

abbrev days_over : Calendar → GameTime → Bool
days_over c t = ltb (days_in_month c t) t.day

abbrev carry_month : Calendar → GameTime → GameTime
carry_month c t = record t { day = t.day - days_in_month c t; month = (t.month + 1) % 2 ^ 8 }

abbrev day_floor : GameTime → GameTime
day_floor t = if ltb t.day 1 then record t { day = 1 } else t

abbrev months_over : Calendar → GameTime → Bool
months_over c t = ltb (length c.months) t.month

abbrev carry_year : Calendar → GameTime → GameTime
carry_year c t = record t { month = t.month - length c.months; year = (t.year + 1) % 2 ^ 16 }

abbrev month_floor : GameTime → GameTime
month_floor t = if ltb t.month 1 then record t { month = 1 } else t

-- Each loop's fuel is above its measure. In the third, a month out of range counts the `uint8`
-- steps until it comes round to 1, and each day is worth more than one such round.
pub clip_time : Calendar → GameTime → Option GameTime
clip_time c t = do
  t₁ ← loop (t.ticks_in_hour + 1) ticks_over carry_hour t
  t₂ ← loop (t₁.hour + 1) hours_over carry_day t₁
  t₃ ← loop (t₂.day * 257 + 258) (days_over c) (carry_month c) t₂
  let floored = day_floor t₃
  t₄ ← loop (floored.month + 1) (months_over c) (carry_year c) floored
  some (month_floor t₄)

-- `ticks_in_hour += ticks` on a `uint16`.
pub update : Calendar → ℕ → GameTime → Option GameTime
update c ticks t = clip_time c (record t { ticks_in_hour = (t.ticks_in_hour + ticks) % 2 ^ 16 })

-- The setters; the argument is converted to the field's type.
pub set_year : Calendar → ℕ → GameTime → Option GameTime
set_year c val t = clip_time c (record t { year = val % 2 ^ 16 })

pub set_month : Calendar → ℕ → GameTime → Option GameTime
set_month c val t = clip_time c (record t { month = val % 2 ^ 8 })

pub set_day : Calendar → ℕ → GameTime → Option GameTime
set_day c val t = clip_time c (record t { day = val % 2 ^ 16 })

pub set_hour : Calendar → ℕ → GameTime → Option GameTime
set_hour c val t = clip_time c (record t { hour = val % 2 ^ 8 })

pub set_ticks : Calendar → ℕ → GameTime → Option GameTime
set_ticks c val t = clip_time c (record t { ticks_in_hour = val % 2 ^ 16 })

-- The result is a `uint8`.
pub get_minutes : GameTime → ℕ
get_minutes t = t.ticks_in_hour * 60 / ticks_per_hour % 2 ^ 8

abbrev pub sun_up_hour : ℕ
sun_up_hour = 6

abbrev pub sun_down_hour : ℕ
sun_down_hour = 19

pub is_day : GameTime → Bool
is_day t = leb sun_up_hour t.hour && ltb t.hour sun_down_hour

pub is_night : GameTime → Bool
is_night t = not (is_day t)

-- `operator ==`.
pub time_eq : GameTime → GameTime → Bool
time_eq t u =
    t.year == u.year
    && t.month == u.month
    && t.day == u.day
    && t.hour == u.hour
    && t.ticks_in_hour == u.ticks_in_hour

-- The first holiday whose year, month and day, where set, fit.
pub get_holiday : List Holiday → GameTime → Text
get_holiday [] t = []
get_holiday (h ∷ hs) t =
    if positive h.year && not (t.year % magnitude h.year == 0)
    then get_holiday hs t
    else if positive h.month && not (t.month == magnitude h.month)
    then get_holiday hs t
    else if positive h.day && not (t.day == magnitude h.day)
    then get_holiday hs t
    else h.name

-- `findMonth` and `findWeekday` return -1 where no name is equal; here that is `none`.
find_from : ℕ → Text → List Text → Option ℕ
find_from i name [] = none
find_from i name (x ∷ xs) = if text_eq name x then some i else find_from (i + 1) name xs

pub find_month : Calendar → Text → Option ℕ
find_month c name = find_from 0 name (map (λ m. m.name) c.months)

pub find_weekday : Calendar → Text → Option ℕ
find_weekday c name = find_from 0 name c.weekdays

-- The sum in `getWeekday` over the months from one on, `left` of them: `uint` products and a
-- `uint64` total.
weekday_year : GameTime → ℕ → ℕ
weekday_year t left = if ltb (left + 1) t.month then t.year else (t.year + 2 ^ 32 - 1) % 2 ^ 32

weekday_add : GameTime → Month → ℕ → ℕ → ℕ
unfolding weekday_year
weekday_add t m left total =
    let year = weekday_year t left in
    let days = (total + m.day_count * year % 2 ^ 32) % 2 ^ 64 in
    if not (m.leap_years == 0) && year % m.leap_years == 0 then (days + 1) % 2 ^ 64 else days

weekday_sum : GameTime → List Month → ℕ → ℕ
weekday_sum t [] total = total
weekday_sum t (m ∷ ms) total = weekday_sum t ms (weekday_add t m (length ms + 1) total)

-- The result is a `uint8`.
pub get_weekday : Calendar → GameTime → ℕ
get_weekday c t =
    let total = (weekday_sum t c.months 0 + t.day) % 2 ^ 64 in
    if not (length c.weekdays == 0) then total % length c.weekdays % 2 ^ 8 else 0
