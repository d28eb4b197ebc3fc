-- ===== src/Clock/Weekday.antt =====
-- `GameCalendar::getWeekday`, `findMonth` and `findWeekday`.
use sourcemud.Base.{
  ℕ, suc, ◌+◌, ◌*◌, ◌%◌, ◌^◌, ◌≤◌, ◌<◌, ◌≡◌, ◌≢◌, refl, sym, ap, inl, inr, Option, none, some, List,
  [], ◌∷◌, map, arith,
}
use native.Mathlib.Nat.{mod-lt, mod-eq_of_lt, mod-add-mod}
use sourcemud.Base.Lists.{length, get_elem?, take, All}
use sourcemud.Base.Tests.{Bool-cases, Option-cases}
use sourcemud.Base.Text.{Text, text_eq, text_eq_iff}
use sourcemud.Clock.{
  Month, Calendar, GameTime, weekday_add, weekday_sum, get_weekday, find_from, find_month,
  find_weekday,
}

-- The result is an index of `weekdays`, so `GameTime::dateStr` reads within it.
pub get_weekday-lt :
    (c : Calendar) (t : GameTime) → 1 ≤ length c.weekdays → get_weekday c t < length c.weekdays
unfolding get_weekday
get_weekday-lt c t h = grind arith

-- Only the year and the month enter the sum.
weekday_sum_same :
    (t u : GameTime)
    → u.year ≡ t.year
    → u.month ≡ t.month
    → (ms : List Month) (total : ℕ) → weekday_sum u ms total ≡ weekday_sum t ms total
unfolding weekday_sum weekday_add
weekday_sum_same t u y m [] total = refl
weekday_sum_same t u y m (x ∷ ms) total = rw (y, m) (weekday_sum_same t u y m ms _)

weekday_add-le :
    (t : GameTime) (m : Month) (left total : ℕ) → weekday_add t m left total ≤ total + 2 ^ 32
unfolding weekday_add
weekday_add-le t m left total = ground arith

weekday_sum-le :
    (t : GameTime) (ms : List Month) (total : ℕ)
    → weekday_sum t ms total ≤ total + length ms * 2 ^ 32
unfolding weekday_sum
weekday_sum-le t [] total = omega arith
weekday_sum-le t (m ∷ ms) total = omega (
  arith,
  weekday_sum-le t ms (weekday_add t m (length ms + 1) total),
  weekday_add-le t m (length ms + 1) total,
)

get_weekday_small :
    (c : Calendar) (t : GameTime)
    → 1 ≤ length c.weekdays
    → length c.weekdays ≤ 2 ^ 8
    → weekday_sum t c.months 0 + t.day < 2 ^ 64
    → get_weekday c t ≡ (weekday_sum t c.months 0 + t.day) % length c.weekdays
unfolding get_weekday
get_weekday_small c t lo hi small =
    let n = weekday_sum t c.months 0 + t.day in
    ground (arith, mod-eq_of_lt small, mod-lt n {m = length c.weekdays} lo)

-- A day later in the same month is the next day of the week, and after the last comes the first.
pub get_weekday_next :
    (c : Calendar) (t u : GameTime)
    → 1 ≤ length c.weekdays
    → length c.weekdays ≤ 2 ^ 8
    → length c.months < 2 ^ 8
    → t.day < 2 ^ 16
    → u.year ≡ t.year
    → u.month ≡ t.month
    → u.day ≡ t.day + 1
    → get_weekday c u ≡ (get_weekday c t + 1) % length c.weekdays
get_weekday_next c t u lo hi months day y m d =
    let same = weekday_sum_same t u y m c.months 0 in
    let small = weekday_sum-le t c.months 0 in
    let next = mod-add-mod (weekday_sum t c.months 0 + t.day) (length c.weekdays) 1 in
    ground
      (arith, get_weekday_small c t lo hi (omega arith), get_weekday_small c u lo hi (omega arith))

find_from_found :
    (i : ℕ) (name : Text) (xs : List Text) (k : ℕ)
    → find_from i name xs ≡ some k
    → (j : ℕ) × (k ≡ i + j) × (get_elem? xs j ≡ some name) × All (λ x. x ≢ name) (take j xs)
unfolding find_from
find_from_found i name [] k e = cc
find_from_found i name (x ∷ xs) k e = elim (Bool-cases (text_eq name x)) [
  | inl hit ↦ (0, ground (arith, hit), ap some (sym ((text_eq_iff name x).0 hit)), tt)
  | inr miss ↦
      let (j, k_eq, at_j, before) = find_from_found (i + 1) name xs k (ground (arith, miss)) in
      (
        suc j,
        omega arith,
        at_j,
        (λ same. ground (arith, (text_eq_iff name x).1 (sym same)), before),
      )
]

find_from_missing :
    (i : ℕ) (name : Text) (xs : List Text) → find_from i name xs ≡ none → All (λ x. x ≢ name) xs
unfolding find_from
find_from_missing i name [] e = tt
find_from_missing i name (x ∷ xs) e = elim (Bool-cases (text_eq name x)) [
  | inl hit ↦ ground (arith, hit)
  | inr miss ↦ (
    λ same. ground (arith, (text_eq_iff name x).1 (sym same)),
    find_from_missing (i + 1) name xs (ground (arith, miss)),
  )
]

-- A search returns the index of the first equal entry, and none where no entry is equal.
abbrev pub Finds : Text → List Text → Option ℕ → Type 0
Finds name xs (some j) = (get_elem? xs j ≡ some name) × All (λ x. x ≢ name) (take j xs)
Finds name xs none = All (λ x. x ≢ name) xs

find_from-Finds : (name : Text) (xs : List Text) → Finds name xs (find_from 0 name xs)
find_from-Finds name xs = elim (Option-cases (find_from 0 name xs)) [
  | inl e ↦ rw e (find_from_missing 0 name xs e)
  | inr (k, e) ↦
      let (j, k_eq, at_j, before) = find_from_found 0 name xs k e in
      let same : k ≡ j = omega arith in rw (e, same) (at_j, before)
]

-- `findWeekday` and `findMonth` return the index of the first entry of the name, or report that
-- there is none.
pub find_name-Finds :
    (c : Calendar) (name : Text)
    → Finds name c.weekdays (find_weekday c name)
      × Finds name (map (λ m. m.name) c.months) (find_month c name)
unfolding find_weekday find_month
find_name-Finds c name =
    (find_from-Finds name c.weekdays, find_from-Finds name (map (λ m. m.name) c.months))
