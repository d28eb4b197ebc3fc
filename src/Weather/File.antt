-- ===== src/Weather/File.antt =====
-- `load` and `save` of WeatherRegion in src/mud/weather.cc. What a region holds after a load that failed
-- is not modelled.
use sourcemud.Base.{
  ℕ, ◌-◌, ◌%◌, ◌^◌, Bool, true, false, ◌&&◌, Option, none, some, List, [], ◌∷◌, ◌++◌,
}
use sourcemud.Base.Int.{ℤ, pos, negsuc}
use sourcemud.Base.Lists.{get_elem?}
use sourcemud.Base.Options
use sourcemud.Base.Tests.{ltb, if◌then◌else◌}
use sourcemud.Base.Text.{Text, codes}
use sourcemud.ObjFile.Outcome.{Outcome, ok, thrown, endless, ◌>>=◌}
use sourcemud.ObjFile.Reader.{Reader}
use sourcemud.ObjFile.Nodes.{Node, get_int, get_string}
use sourcemud.ObjFile.Writer.{Call, put_attr, put_long, put_begin, put_end}
use sourcemud.ObjFile.Object.{fo_attr, fo_object, unrecognized, read_object}
use sourcemud.Weather.{WeatherChange, WeatherState, WeatherRegion, get_state}

-- An `int` as a `uint`.
unfoldable pub to_uint : ℤ → ℕ
to_uint (pos n) = n % 2 ^ 32
to_uint (negsuc n) = (2 ^ 32 - 1) - n % 2 ^ 32

unfoldable pub change_node : WeatherChange → Node → Reader → Outcome (WeatherChange × Reader)
unfolding to_uint
change_node c node r =
    if fo_attr (codes "change") (codes "target") node
    then (get_string node >>= λ text. ok (record c { to = text }, r))
    else if fo_attr (codes "change") (codes "chance") node
    then (get_int node >>= λ n. ok (record c { chance = to_uint n }, r))
    else if fo_attr (codes "change") (codes "text") node
    then (get_string node >>= λ text. ok (record c { desc = text }, r))
    else unrecognized node r

-- A fresh rule; its chance is not set.
abbrev pub fresh_change : ℕ → WeatherChange
fresh_change unset = record { to = []; desc = []; chance = unset }

unfoldable pub state_node : ℕ → ℕ → WeatherState → Node → Reader → Outcome (WeatherState × Reader)
unfolding change_node
state_node fuel unset s node r =
    if fo_attr (codes "state") (codes "id") node
    then (get_string node >>= λ text. ok (record s { id = text }, r))
    else if fo_attr (codes "state") (codes "desc") node
    then (get_string node >>= λ text. ok (record s { descs = s.descs ++ (text ∷ []) }, r))
    else if fo_object (codes "state") (codes "change") node
    then (read_object fuel change_node (fresh_change unset) r >>= λ c.
        ok (record s { changes = s.changes ++ (c.0 ∷ []) }, c.1))
    else unrecognized node r

abbrev pub state_index : Option ℕ → ℕ
state_index none = 2 ^ 32 - 1
state_index (some i) = i % 2 ^ 32

-- An index below nought is not found out: `state` is unsigned.
unfoldable pub region_node :
    ℕ → ℕ → WeatherRegion → Node → Reader → Outcome (WeatherRegion × Reader)
unfolding state_node to_uint
region_node fuel unset w node r =
    if fo_object (codes "weather") (codes "state") node
    then (read_object fuel (state_node fuel unset)
          (record { id = node.name; changes = []; descs = [] }) r
        >>= λ s. ok (record w { states = w.states ++ (s.0 ∷ []) }, s.1))
    else if fo_attr (codes "weather") (codes "current") node
    then (get_string node >>= λ text.
        ok (record w { state = state_index (get_state w.states text) }, r))
    else if fo_attr (codes "weather") (codes "ticks") node
    then (get_int node >>= λ n.
        ok (record w { ticks = if ltb 500 (to_uint n) then 500 else to_uint n }, r))
    else unrecognized node r

abbrev pub is_found : Option ℕ → Bool
is_found none = false
is_found (some i) = true

unfoldable pub changes_lead : List WeatherState → List WeatherChange → Bool
changes_lead states [] = true
changes_lead states (c ∷ cs) = is_found (get_state states c.to) && changes_lead states cs

unfoldable pub states_lead : List WeatherState → List WeatherState → Bool
unfolding changes_lead
states_lead states [] = true
states_lead states (s ∷ ss) = changes_lead states s.changes && states_lead states ss

-- The checks behind the loop; `none` is the result -1.
unfoldable pub check_region : WeatherRegion → Option WeatherRegion
unfolding states_lead
check_region w = elim w.states [
  | [] ↦ none
  | s ∷ ss ↦ if states_lead w.states w.states then some w else none
]

-- The catch of the exceptions.
unfoldable pub loaded : Outcome (WeatherRegion × Reader) → Outcome (Option WeatherRegion)
unfolding check_region
loaded (ok (w, r)) = ok (check_region w)
loaded (thrown what) = ok none
loaded endless = endless

-- `load`, whose loops all have the same fuel.
unfoldable pub load : ℕ → ℕ → Reader → Outcome (Option WeatherRegion)
unfolding region_node loaded
load fuel unset r =
    loaded
      (read_object fuel (region_node fuel unset) (record { states = []; state = 0; ticks = 0 }) r)

-- The calls of the loops of `save`, and those behind them.
unfoldable pub save_descs : List Text → List Call → List Call
save_descs [] rest = rest
save_descs (d ∷ ds) rest = put_attr (codes "state") (codes "desc") d ∷ save_descs ds rest

unfoldable pub save_changes : List WeatherChange → List Call → List Call
save_changes [] rest = rest
save_changes (c ∷ cs) rest =
    put_begin (codes "state") (codes "change")
    ∷ put_attr (codes "change") (codes "target") c.to
    ∷ put_long (codes "change") (codes "chance") (pos c.chance)
    ∷ put_attr (codes "change") (codes "text") c.desc
    ∷ put_end
    ∷ save_changes cs rest

unfoldable pub save_states : List WeatherState → List Call → List Call
unfolding save_descs save_changes
save_states [] rest = rest
save_states (s ∷ ss) rest =
    put_begin (codes "weather") (codes "state")
    ∷ put_attr (codes "state") (codes "id") s.id
    ∷ save_descs s.descs (save_changes s.changes (put_end ∷ save_states ss rest))

-- `save`; none if there is no such state.
unfoldable pub save : WeatherRegion → Option (List Call)
unfolding save_states
save w = Options.◌>>=◌ (get_elem? w.states w.state) λ s. some (
    save_states w.states (
      put_attr (codes "weather") (codes "current") s.id
      ∷ put_long (codes "weather") (codes "ticks") (pos w.ticks)
      ∷ []))
