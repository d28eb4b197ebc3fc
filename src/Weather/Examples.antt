-- ===== src/Weather/Examples.antt =====
-- Runs of the weather.
use sourcemud.Base.{true, suc, ◌≡◌, ◌^◌, ◌-◌, ◌*◌, refl, none, some, List, [], ◌∷◌, arith}
use sourcemud.Base.Lists.{length, get_elem?}
use sourcemud.Base.Text.{Text, codes, text_eq}
use sourcemud.Strings.Chars.{is_alpha, is_alnum, is_space}
use sourcemud.ObjFile.Nodes.{get_node, get_string}
use sourcemud.ObjFile.Object.{read_object}
use sourcemud.ObjFile.Reader.{read_token}
use sourcemud.ObjFile.Outcome.{ok}
use sourcemud.ObjFile.Writer.{Call, written, put_begin, put_end, put_attr}
use sourcemud.ObjFile.Tokens.{at_line}
use sourcemud.ObjFile.Contents.{contents}
use sourcemud.Clock.{ticks_per_hour}
use sourcemud.Weather.{WeatherState, WeatherRegion, get_state, update_weather, update_times}
use sourcemud.Weather.Draws.{urn, Moved}
use sourcemud.Weather.Change.{IsValid, update_times-Moved, update_times-IsValid}
use sourcemud.Weather.File.{load, save, states_lead}
use sourcemud.Weather.RoundTrip.{load-save}

abbrev sunny : WeatherState
sunny = record {
  id = codes "sunny";
  changes = record { to = codes "rainy"; desc = codes "It starts to rain."; chance = 30 } ∷ [];
  descs = codes "The sun shines." ∷ [];
}

abbrev rainy : WeatherState
rainy = record {
  id = codes "rainy";
  changes = record { to = codes "sunny"; desc = codes "The rain stops."; chance = 60 } ∷ [];
  descs = [];
}

abbrev rainy_alone : WeatherState
rainy_alone = record { id = codes "rainy"; changes = []; descs = [] }

abbrev coast : WeatherRegion
coast = record { states = sunny ∷ rainy ∷ []; state = 0; ticks = 2 }

to_rainy : get_state (sunny ∷ rainy ∷ []) (codes "rainy") ≡ some 1
unfolding get_state text_eq
to_rainy = refl

to_sunny : get_state (sunny ∷ rainy ∷ []) (codes "sunny") ≡ some 0
unfolding get_state text_eq
to_sunny = refl

coast-IsValid : IsValid coast
coast-IsValid = (omega arith, ground (arith, to_rainy, to_sunny))

update_times-Moved_example :
    (update_times ((7, 1) ∷ (8, 2) ∷ []) coast ≡ some (record coast { ticks = 0 }, []))
    × ((u : WeatherRegion × List Text) × (update_times ((7, 1) ∷ (8, 2) ∷ (312, 3) ∷ []) coast
          ≡ some u)
        × Moved (get_elem? (urn sunny.changes) 12) coast.states 0 u
        × (u.0.states ≡ coast.states)
        × (u.0.ticks ≡ 4 * ticks_per_hour))
update_times-Moved_example = update_times-Moved ((7, 1) ∷ (8, 2) ∷ []) 312 3 sunny coast refl refl

update_times-IsValid_example :
    (u : WeatherRegion × List Text) × (update_times ((7, 1) ∷ (8, 2) ∷ (312, 3) ∷ []) coast
      ≡ some u)
    × IsValid u.0
update_times-IsValid_example =
    update_times-IsValid ((7, 1) ∷ (8, 2) ∷ (312, 3) ∷ []) coast coast-IsValid

coast_leads : states_lead (sunny ∷ rainy ∷ []) (sunny ∷ rainy ∷ []) ≡ true
unfolding states_lead get_state text_eq
coast_leads = refl

load-save_example :
    (calls : List Call) × (save coast ≡ some calls)
    × (load (suc (length (contents calls))) 77 (at_line (written calls) 1) ≡ ok (some coast))
load-save_example =
    load-save 77 coast
      ((sunny, refl, to_sunny), omega arith, omega arith, ground arith, coast_leads)

-- The name of no state as the current one is taken, and the next draw reads behind the states.
abbrev in_fog : WeatherRegion
in_fog = record { states = rainy_alone ∷ []; state = 2 ^ 32 - 1; ticks = 0 }

load_unknown_state :
    load 9 0 (
      at_line
        (written (
          put_begin (codes "weather") (codes "state")
          ∷ put_attr (codes "state") (codes "id") (codes "rainy")
          ∷ put_end
          ∷ put_attr (codes "weather") (codes "current") (codes "fog")
          ∷ []))
        1)
    ≡ ok (some in_fog)
unfolding load written get_state text_eq read_object get_node read_token is_alpha is_alnum is_space
    get_string
load_unknown_state = refl

update_weather_unknown_state : update_weather 0 0 in_fog ≡ none
unfolding update_weather
update_weather_unknown_state = refl
