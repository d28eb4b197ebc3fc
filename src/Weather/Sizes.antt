-- ===== src/Weather/Sizes.antt =====
-- The number of nodes that `save` of src/mud/weather.cc writes.
use sourcemud.Base.{ℕ, ◌+◌, ◌*◌, ◌≤◌, ◌≡◌, some, List, [], ◌∷◌, arith}
use sourcemud.Base.Lists.{length, get_elem?}
use sourcemud.Base.Text.{Text}
use sourcemud.ObjFile.Writer.{Call, put_end}
use sourcemud.ObjFile.Contents.{contents}
use sourcemud.Weather.{WeatherChange, WeatherState}
use sourcemud.Weather.File.{save_descs, save_changes, save_states}

length-save_descs :
    (ds : List Text) (rest : List Call)
    → length (contents (save_descs ds rest)) ≡ length ds + length (contents rest)
unfolding save_descs
length-save_descs [] rest = omega arith
length-save_descs (d ∷ ds) rest = omega (arith, length-save_descs ds rest)

length-save_changes :
    (cs : List WeatherChange) (rest : List Call)
    → length (contents (save_changes cs rest)) ≡ 5 * length cs + length (contents rest)
unfolding save_changes
length-save_changes [] rest = omega arith
length-save_changes (c ∷ cs) rest = omega (arith, length-save_changes cs rest)

pub length-save_states :
    (s : WeatherState) (ss : List WeatherState) (rest : List Call)
    → length (contents (save_states (s ∷ ss) rest))
      ≡ (length s.descs + 5 * length s.changes + 3) + length (contents (save_states ss rest))
unfolding save_states
length-save_states s ss rest = omega (
  arith,
  length-save_descs s.descs (save_changes s.changes (put_end ∷ save_states ss rest)),
  length-save_changes s.changes (put_end ∷ save_states ss rest),
)

pub save_states_long :
    (states : List WeatherState) (i : ℕ) (s : WeatherState) (rest : List Call)
    → get_elem? states i ≡ some s
    → 3 ≤ length (contents (save_states states rest))
save_states_long [] i s rest e = cc
save_states_long (x ∷ xs) i s rest e = omega (arith, length-save_states x xs rest)

pub length-states :
    (ss : List WeatherState) (rest : List Call)
    → length ss + length (contents rest) ≤ length (contents (save_states ss rest))
length-states [] rest = unfold save_states in omega arith
length-states (s ∷ ss) rest = omega (arith, length-states ss rest, length-save_states s ss rest)
