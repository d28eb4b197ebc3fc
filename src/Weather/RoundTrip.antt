-- ===== src/Weather/RoundTrip.antt =====
-- `load` of src/mud/weather.cc on what `save` wrote.
use sourcemud.Base.{
  ℕ, suc, ◌+◌, ◌^◌, ◌≤◌, ◌<◌, ◌≡◌, refl, ap, subst, true, some, List, [], ◌∷◌, arith,
}
use sourcemud.Base.Int.{pos}
use sourcemud.Base.Lists.{All, length, get_elem?, All-get_elem?}
use sourcemud.Base.Text.{Text, codes, text_eq}
use sourcemud.Strings.Split.{Lacks}
use sourcemud.ObjFile.Outcome.{ok}
use sourcemud.ObjFile.Writer.{Call, put_attr, put_long, written}
use sourcemud.Strings.Chars.{is_alpha, is_alnum, is_digit}
use sourcemud.ObjFile.Reader.{name_token}
use sourcemud.ObjFile.Writer.{valid_name, all_name_chars}
use sourcemud.ObjFile.Lines.{IsReadable}
use sourcemud.ObjFile.Tokens.{at_line}
use sourcemud.ObjFile.Contents.{contents, IsFaithful}
use sourcemud.ObjFile.RoundTrip.{read_nodes-written}
use sourcemud.ObjFile.Streams.{Streams, read_nodes-Streams, Loads}
use sourcemud.Weather.{WeatherChange, WeatherState, WeatherRegion, get_state}
use sourcemud.Weather.File.{
  states_lead, check_region, loaded, load, save_descs, save_changes, save_states, save,
}
use sourcemud.Weather.Sizes.{save_states_long, length-states}
use sourcemud.Weather.States.{IsSaved, IsSavedState}
use sourcemud.Weather.Loading.{states_Loads, current_Loads}

-- The names in the file.
state-IsReadable : IsReadable (codes "state")
unfolding valid_name all_name_chars is_alnum is_alpha is_digit name_token text_eq
state-IsReadable = (refl, refl)

desc-IsReadable : IsReadable (codes "desc")
unfolding valid_name all_name_chars is_alnum is_alpha is_digit name_token text_eq
desc-IsReadable = (refl, refl)

change-IsReadable : IsReadable (codes "change")
unfolding valid_name all_name_chars is_alnum is_alpha is_digit name_token text_eq
change-IsReadable = (refl, refl)

target-IsReadable : IsReadable (codes "target")
unfolding valid_name all_name_chars is_alnum is_alpha is_digit name_token text_eq
target-IsReadable = (refl, refl)

chance-IsReadable : IsReadable (codes "chance")
unfolding valid_name all_name_chars is_alnum is_alpha is_digit name_token text_eq
chance-IsReadable = (refl, refl)

text-IsReadable : IsReadable (codes "text")
unfolding valid_name all_name_chars is_alnum is_alpha is_digit name_token text_eq
text-IsReadable = (refl, refl)

weather-IsReadable : IsReadable (codes "weather")
unfolding valid_name all_name_chars is_alnum is_alpha is_digit name_token text_eq
weather-IsReadable = (refl, refl)

id-IsReadable : IsReadable (codes "id")
unfolding valid_name all_name_chars is_alnum is_alpha is_digit name_token text_eq
id-IsReadable = (refl, refl)

current-IsReadable : IsReadable (codes "current")
unfolding valid_name all_name_chars is_alnum is_alpha is_digit name_token text_eq
current-IsReadable = (refl, refl)

ticks-IsReadable : IsReadable (codes "ticks")
unfolding valid_name all_name_chars is_alnum is_alpha is_digit name_token text_eq
ticks-IsReadable = (refl, refl)

save_descs-IsFaithful :
    (ds : List Text) (rest : List Call)
    → All (Lacks 0) ds
    → All IsFaithful rest
    → All IsFaithful (save_descs ds rest)
unfolding save_descs
save_descs-IsFaithful [] rest h k = k
save_descs-IsFaithful (d ∷ ds) rest h k =
    ((state-IsReadable, desc-IsReadable, h.0), save_descs-IsFaithful ds rest h.1 k)

save_changes-IsFaithful :
    (cs : List WeatherChange) (rest : List Call)
    → All IsSaved cs
    → All IsFaithful rest
    → All IsFaithful (save_changes cs rest)
unfolding save_changes
save_changes-IsFaithful [] rest h k = k
save_changes-IsFaithful (c ∷ cs) rest h k = (
  (state-IsReadable, change-IsReadable),
  (
    (change-IsReadable, target-IsReadable, h.0.0),
    (
      (change-IsReadable, chance-IsReadable),
      ((change-IsReadable, text-IsReadable, h.0.1), (tt, save_changes-IsFaithful cs rest h.1 k)),
    ),
  ),
)

save_states-IsFaithful :
    (ss : List WeatherState) (rest : List Call)
    → All IsSavedState ss
    → All IsFaithful rest
    → All IsFaithful (save_states ss rest)
unfolding save_states
save_states-IsFaithful [] rest h k = k
save_states-IsFaithful (s ∷ ss) rest h k = (
  (weather-IsReadable, state-IsReadable),
  (
    (state-IsReadable, id-IsReadable, h.0.0),
    save_descs-IsFaithful s.descs _ h.0.1
        (save_changes-IsFaithful s.changes _ h.0.2 (tt, save_states-IsFaithful ss rest h.1 k)),
  ),
)

-- A region that can be saved: in one of its states, the first with its name, with rules that lead to its
-- states, with at most 500 ticks, with strings without a zero byte and numbers of 32 bits.
abbrev pub IsSavable : WeatherRegion → Type 0
IsSavable w =
    ((s : WeatherState) × (get_elem? w.states w.state ≡ some s)
      × (get_state w.states s.id ≡ some w.state))
    × (w.state < 2 ^ 32)
    × (w.ticks ≤ 500)
    × All IsSavedState w.states
    × (states_lead w.states w.states ≡ true)

check_region-some :
    (states : List WeatherState) (state ticks i : ℕ) (s : WeatherState)
    → get_elem? states i ≡ some s
    → states_lead states states ≡ true
    → check_region (record { states = states; state = state; ticks = ticks })
      ≡ some (record { states = states; state = state; ticks = ticks })
unfolding check_region
check_region-some [] state ticks i s e h = cc
check_region-some (x ∷ xs) state ticks i s e h = rw h refl

-- What `save` writes of a region that is in one of its states, the first with its name, whose rules lead
-- to its states, with at most 500 ticks, strings without a zero byte and numbers of 32 bits, is loaded
-- as the same region, whatever an unset chance holds.
pub load-save :
    (unset : ℕ) (w : WeatherRegion)
    → IsSavable w
    → (calls : List Call) × (save w ≡ some calls)
      × (load (suc (length (contents calls))) unset (at_line (written calls) 1) ≡ ok (some w))
unfolding save load loaded Loads
load-save unset w ((s, here, first), small, few, saved, lead) =
    let tail : List Call =
      put_attr (codes "weather") (codes "current") s.id
      ∷ put_long (codes "weather") (codes "ticks") (pos w.ticks)
      ∷ [] in
    let calls : List Call = save_states w.states tail in
    let fuel : ℕ = suc (length (contents calls)) in
    let faithful : All IsFaithful calls = save_states-IsFaithful w.states tail saved (
      (
        weather-IsReadable,
        current-IsReadable,
        (All-get_elem? IsSavedState w.states w.state s saved here).0,
      ),
      ((weather-IsReadable, ticks-IsReadable), tt),
    ) in
    let (nodes, e, same) = read_nodes-written calls fuel faithful (omega arith) in
    let streams : Streams (at_line (written calls) 1) (contents calls) =
      subst (Streams (at_line (written calls) 1)) same
        (read_nodes-Streams fuel (at_line (written calls) 1) nodes e) in
    let long : 3 ≤ length (contents calls) = save_states_long w.states w.state s tail here in
    let (r, e', q) =
      states_Loads fuel unset 2 (length w.states + 2) w.states tail
        (record { states = []; state = 0; ticks = 0 }) w (at_line (written calls) 1) _ (omega arith)
        saved (omega arith) (omega arith) streams
        (λ r' k. current_Loads fuel unset w.state w.ticks w.states s.id r' first small few k) fuel
        (omega (arith, length-states w.states tail)) in
    (
      calls,
      rw here refl,
      rw e' (ap ok (check_region-some w.states w.state w.ticks w.state s here lead)),
    )
