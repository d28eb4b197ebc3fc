-- ===== src/Weather.antt =====
-- The weather of src/mud/weather.cc and include/mud/weather.h. What Random::get draws is an argument; an
-- index behind the end of the states is `none`.
use sourcemud.Base.{ℕ, zero, suc, ◌+◌, ◌-◌, ◌*◌, ◌%◌, Option, none, some, List, [], ◌∷◌, ◌++◌}
use sourcemud.Base.Lists.{length, get_elem?}
use sourcemud.Base.Options.{◌>>=◌}
use sourcemud.Base.Tests.{◌==◌, leb, if◌then◌else◌}
use sourcemud.Base.Text.{Text, text_eq}
use sourcemud.Clock.{ticks_per_hour}
pub mod Draws
pub mod Change
pub mod File
pub mod Sizes
pub mod States
pub mod Loading
pub mod RoundTrip
pub mod Examples

pub record WeatherChange : Type 0 where
  pub to : Text
  pub desc : Text
  pub chance : ℕ

pub record WeatherState : Type 0 where
  pub id : Text
  pub changes : List WeatherChange
  pub descs : List Text

pub record WeatherRegion : Type 0 where
  pub states : List WeatherState
  pub state : ℕ
  pub ticks : ℕ

-- `getState`; -1 is `none`.
unfoldable pub get_state : List WeatherState → Text → Option ℕ
get_state [] name = none
get_state (s ∷ ss) name =
    if text_eq s.id name then some 0 else get_state ss name >>= λ i. some (suc i)

-- Random::get, of what random() gives.
unfoldable pub random_get : ℕ → ℕ → ℕ
random_get range raw = if range == 0 then 0 else raw % range

-- `getCurrentDesc`; the state must have a description.
unfoldable pub get_current_desc : ℕ → WeatherRegion → Option Text
unfolding random_get
get_current_desc raw r =
    get_elem? r.states r.state >>= λ s. get_elem? s.descs (random_get (length s.descs) raw)

-- The rule whose range the random number falls in.
unfoldable pub take_change : ℕ → List WeatherChange → Option WeatherChange
take_change random [] = none
take_change random (c ∷ cs) =
    let rest = take_change (random - c.chance) cs in if leb random c.chance then some c else rest

-- The new state, and what is announced.
unfoldable pub change_state : Option WeatherChange → WeatherRegion → WeatherRegion × List Text
unfolding get_state
change_state none r = (r, [])
change_state (some c) r = elim (get_state r.states c.to) [
  | none ↦ (r, [])
  | some n ↦ (record r { state = n }, c.desc ∷ [])
]

-- The draw, when the ticks are over.
unfoldable pub change_weather : ℕ → ℕ → WeatherRegion → Option (WeatherRegion × List Text)
unfolding random_get take_change change_state
change_weather roll hours r = get_elem? r.states r.state >>= λ s.
    let moved = change_state (take_change (random_get 100 roll + 1) s.changes) r in
    some (record moved.0 { ticks = (random_get 4 hours + 1) * ticks_per_hour }, moved.1)

-- `update`, with what its two calls of random() give.
unfoldable pub update_weather : ℕ → ℕ → WeatherRegion → Option (WeatherRegion × List Text)
unfolding change_weather
update_weather roll hours r = elim r.states [
  | [] ↦ some (r, [])
  | s ∷ ss ↦
      if r.ticks == 0
      then change_weather roll hours r
      else some (record r { ticks = r.ticks - 1 }, [])
]

-- Calls of `update`, one after another, and all that they announce.
unfoldable pub update_times : List (ℕ × ℕ) → WeatherRegion → Option (WeatherRegion × List Text)
unfolding update_weather
update_times [] r = some (r, [])
update_times ((roll, hours) ∷ draws) r =
    update_weather roll hours r >>= λ u. update_times draws u.0 >>= λ v. some (v.0, u.1 ++ v.1)
