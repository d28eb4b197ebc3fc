-- ===== src/Weather/Change.antt =====
-- `update` of src/mud/weather.cc, once and many times.
use mathlib.Core.List.{append-nil}
use sourcemud.Base.{
  ℕ, zero, suc, ◌+◌, ◌*◌, ◌%◌, ◌<◌, ◌≡◌, ◌≢◌, refl, ap, sym, subst, inl, inr, Option, none, some,
  List, [], ◌∷◌, ◌++◌, arith,
}
use sourcemud.Base.Lists.{All, length, get_elem?, get_elem?_in_range}
use sourcemud.Base.Tests.{Option-cases}
use sourcemud.Base.Text.{Text}
use sourcemud.Clock.{ticks_per_hour}
use sourcemud.Weather.{
  WeatherChange, WeatherState, WeatherRegion, get_state, change_state, update_weather, update_times,
}
use sourcemud.Weather.Draws.{urn, drawn, change_weather-drawn, Moved, drawn-Moved, drawn-states}

abbrev region : List WeatherState → ℕ → ℕ → WeatherRegion
region states state ticks = record { states = states; state = state; ticks = ticks }

update_weather_over :
    (roll hours : ℕ) (s : WeatherState) (states : List WeatherState) (state : ℕ)
    → get_elem? states state ≡ some s
    → update_weather roll hours (region states state 0)
      ≡ some (drawn roll hours s (region states state 0))
unfolding update_weather
update_weather_over roll hours s [] state e = cc
update_weather_over roll hours s (x ∷ xs) state e =
    change_weather-drawn roll hours s (region (x ∷ xs) state 0) e

update_weather_wait :
    (roll hours state n : ℕ) (s : WeatherState) (states : List WeatherState)
    → get_elem? states state ≡ some s
    → update_weather roll hours (region states state (suc n)) ≡ some (region states state n, [])
unfolding update_weather
update_weather_wait roll hours state n s [] e = cc
update_weather_wait roll hours state n s (x ∷ xs) e = ground arith

update_times_wait :
    (draws : List (ℕ × ℕ)) (s : WeatherState) (states : List WeatherState) (state : ℕ)
    → get_elem? states state ≡ some s
    → update_times draws (region states state (length draws)) ≡ some (region states state 0, [])
unfolding update_times
update_times_wait [] s states state e = refl
update_times_wait ((a, b) ∷ draws) s states state e =
    rw
      (
        update_weather_wait a b state (length draws) s states e,
        update_times_wait draws s states state e,
      )
      refl

update_times_after :
    (draws : List (ℕ × ℕ)) (roll hours : ℕ) (s : WeatherState) (states : List WeatherState)
    (state : ℕ)
    → get_elem? states state ≡ some s
    → update_times (draws ++ ((roll, hours) ∷ [])) (region states state (length draws))
      ≡ some (drawn roll hours s (region states state 0))
unfolding update_times
update_times_after [] roll hours s states state e =
    rw (update_weather_over roll hours s states state e)
      (ap (λ a. some ((drawn roll hours s (region states state 0)).0, a)) (append-nil _))
update_times_after ((a, b) ∷ draws) roll hours s states state e =
    rw
      (
        update_weather_wait a b state (length draws) s states e,
        update_times_after draws roll hours s states state e,
      )
      refl

-- A region that is in one of its states is left as it is, and nothing is announced, by as many updates
-- as it has ticks left, whatever is drawn. The next one draws from an urn that has as many copies of
-- each rule of the state as its chance says. With a rule, the region is then in the first state that
-- has the name the rule leads to, and just the rule's text is announced; with a rule that leads to no
-- state, or where the urn has none at that place, the region stays in its state and nothing is
-- announced. Its states are kept, and its ticks are set to one to four hours.
pub update_times-Moved :
    (draws : List (ℕ × ℕ)) (roll hours : ℕ) (s : WeatherState) (r : WeatherRegion)
    → get_elem? r.states r.state ≡ some s
    → length draws ≡ r.ticks
    → (update_times draws r ≡ some (record r { ticks = 0 }, []))
      × ((u : WeatherRegion × List Text) × (update_times (draws ++ ((roll, hours) ∷ [])) r ≡ some u)
          × Moved (get_elem? (urn s.changes) (roll % 100)) r.states r.state u
          × (u.0.states ≡ r.states)
          × (u.0.ticks ≡ (hours % 4 + 1) * ticks_per_hour))
update_times-Moved draws roll hours s r e n = (
  subst (λ t. update_times draws (region r.states r.state t) ≡ some (record r { ticks = 0 }, [])) n
      (update_times_wait draws s r.states r.state e),
  (
    drawn roll hours s (record r { ticks = 0 }),
    subst
        (λ t.
          update_times (draws ++ ((roll, hours) ∷ [])) (region r.states r.state t)
          ≡ some (drawn roll hours s (record r { ticks = 0 })))
        n (update_times_after draws roll hours s r.states r.state e),
    drawn-Moved roll hours s (record r { ticks = 0 }),
    drawn-states roll hours s (record r { ticks = 0 }),
    refl,
  ),
)

-- In one of its states, with rules that lead to its states.
abbrev pub IsValid : WeatherRegion → Type 0
IsValid r =
    (r.state < length r.states)
    × All (λ s. All (λ c. get_state r.states c.to ≢ none) s.changes) r.states

get_state-lt :
    (states : List WeatherState) (name : Text) (i : ℕ)
    → get_state states name ≡ some i
    → i < length states
unfolding get_state
get_state-lt [] name i e = cc
get_state-lt (s ∷ ss) name i e = elim (Option-cases (get_state ss name)) [
  | inl gone ↦ ground arith
  | inr (j, here) ↦ ground (arith, get_state-lt ss name j here)
]

moved-IsValid :
    (r : WeatherRegion) (c : WeatherChange)
    → IsValid r
    → (moved : WeatherRegion × List Text) × (change_state (some c) r ≡ moved) × IsValid moved.0
unfolding change_state
moved-IsValid r c h = elim (Option-cases (get_state r.states c.to)) [
  | inl e ↦ ((r, []), rw (change_state, e) refl, h)
  | inr (n, e) ↦ (
    (record r { state = n }, c.desc ∷ []),
    rw (change_state, e) refl,
    (get_state-lt r.states c.to n e, h.1),
  )
]

change_state-IsValid :
    (c : Option WeatherChange) (r : WeatherRegion) → IsValid r → IsValid (change_state c r).0
change_state-IsValid none r h = unfold change_state in h
change_state-IsValid (some c) r h =
    let (moved, e, valid) = moved-IsValid r c h in subst (λ m. IsValid m.0) (sym e) valid

region-IsValid :
    (roll hours state ticks : ℕ) (states : List WeatherState)
    → IsValid (region states state ticks)
    → (u : WeatherRegion × List Text) × (update_weather roll hours (region states state ticks)
        ≡ some u)
      × IsValid u.0
region-IsValid roll hours state zero states h =
    let (s, e) = get_elem?_in_range states state h.0 in
    (
      drawn roll hours s (region states state 0),
      update_weather_over roll hours s states state e,
      change_state-IsValid (get_elem? (urn s.changes) (roll % 100)) (region states state 0) h,
    )
region-IsValid roll hours state (suc n) states h =
    let (s, e) = get_elem?_in_range states state h.0 in
    ((region states state n, []), update_weather_wait roll hours state n s states e, h)

-- A region that is in one of its states, and whose rules lead to its states, is updated without a fault
-- as often as one likes, whatever is drawn, and is again such a region.
pub update_times-IsValid :
    (draws : List (ℕ × ℕ)) (r : WeatherRegion)
    → IsValid r
    → (u : WeatherRegion × List Text) × (update_times draws r ≡ some u) × IsValid u.0
unfolding update_times
update_times-IsValid [] r h = ((r, []), refl, h)
update_times-IsValid ((roll, hours) ∷ draws) r h =
    let (u, e, valid) = region-IsValid roll hours r.state r.ticks r.states h in
    let (v, e', valid') = update_times-IsValid draws u.0 valid in
    ((v.0, u.1 ++ v.1), rw (e, e') refl, valid')
