-- ===== src/Weather/Loading.antt =====
-- `load` of src/mud/weather.cc on the nodes of a region.
use mathlib.Core.List.{append_assoc, append-nil}
use sourcemud.Base.{
  ℕ, ◌+◌, ◌^◌, ◌≤◌, ◌<◌, ◌≡◌, refl, ap, ◌∙◌, sym, subst, Option, some, List, [], ◌∷◌, ◌++◌, arith,
}
use sourcemud.Base.Int.{pos}
use sourcemud.Base.Lists.{All, length}
use sourcemud.Base.Tests.{ltb, if◌then◌else◌}
use sourcemud.Base.Text.{Text, codes, text_eq}
use sourcemud.Strings.Numbers.{tolong, tostr}
use sourcemud.Telnet.Stream.{to_int}
use sourcemud.ObjFile.Outcome.{ok}
use sourcemud.ObjFile.Reader.{Reader}
use sourcemud.ObjFile.Nodes.{value_none, begin_untyped, get_int, get_string}
use sourcemud.ObjFile.Writer.{Call, put_attr, put_long, put_end}
use sourcemud.ObjFile.Contents.{contents}
use sourcemud.ObjFile.Streams.{node_with, Streams, Loads, Loads-mono, Loads-eof, Loads-step}
use sourcemud.Weather.{WeatherState, WeatherRegion, get_state}
use sourcemud.Weather.File.{
  to_uint, state_index, region_node, save_descs, save_changes, save_states,
}
use sourcemud.Weather.Sizes.{length-save_states}
use sourcemud.Weather.States.{IsSavedState, rounds, state_Loads, uint-tostr}

state_step :
    (fuel unset : ℕ) (s : WeatherState) (rest : List Call) (w : WeatherRegion) (line : Option ℕ)
    (r : Reader)
    → 3 < fuel
    → rounds s < fuel
    → IsSavedState s
    → Streams r (
        contents (
          put_attr (codes "state") (codes "id") s.id
          ∷ save_descs s.descs (save_changes s.changes (put_end ∷ rest))))
    → (r' : Reader) × (region_node fuel unset w
          (node_with
            (record {
              node_type = begin_untyped;
              ns = codes "weather";
              name = codes "state";
              value = value_none;
            })
            line)
          r
        ≡ ok (record w { states = w.states ++ (s ∷ []) }, r'))
      × Streams r' (contents rest)
unfolding region_node text_eq Loads
state_step fuel unset s rest w line r enough room saved streams =
    let (r', e, streams') = state_Loads fuel unset s rest r enough saved streams fuel room in
    (r', rw e refl, streams')

pub states_Loads :
    (fuel unset m n : ℕ) (ss : List WeatherState) (rest : List Call) (w d : WeatherRegion)
    (r : Reader) (Q : Reader → Type 0)
    → 3 < fuel
    → All IsSavedState ss
    → length (contents (save_states ss rest)) < fuel
    → length ss + m ≤ n
    → Streams r (contents (save_states ss rest))
    → ((r' : Reader)
        → Streams r' (contents rest)
        → Loads (region_node fuel unset) m (record w { states = w.states ++ ss }) r' d Q)
    → Loads (region_node fuel unset) n w r d Q
unfolding save_states
states_Loads fuel unset m n [] rest w d r Q enough saved all le streams next =
    subst (λ x. Loads (region_node fuel unset) n (record w { states = x }) r d Q)
      (append-nil w.states)
      (Loads-mono (region_node fuel unset) m n _ d r Q (omega arith) (next r streams))
states_Loads fuel unset m n (s ∷ ss) rest w d r Q enough saved all le streams next =
    Loads-step (region_node fuel unset) (length ss + m) n w
      (record w { states = w.states ++ (s ∷ []) }) d r Q _ _ (omega arith) refl streams
      (λ line r₁ streams₁.
        let (r', e, streams') =
          state_step fuel unset s (save_states ss rest) w line r₁ enough
            (omega (arith, length-save_states s ss rest)) saved.0 streams₁ in
        (
          r',
          e,
          states_Loads fuel unset m (length ss + m) ss rest
              (record w { states = w.states ++ (s ∷ []) }) d r' Q enough saved.1
              (omega (arith, length-save_states s ss rest)) (omega arith) streams'
              (λ r'' k.
                subst (λ y. Loads (region_node fuel unset) m (record w { states = y }) r'' d Q)
                  (sym (append_assoc w.states (s ∷ []) ss)) (next r'' k)),
        ))

few_ticks :
    (n : ℕ)
    → n ≤ 500
    → (if ltb 500 (to_uint (to_int (tolong (tostr (pos n)))))
        then 500
        else to_uint (to_int (tolong (tostr (pos n)))))
      ≡ n
few_ticks n few = rw (uint-tostr n (omega arith)) (ground arith)

pub current_Loads :
    (fuel unset state ticks : ℕ) (states : List WeatherState) (id : Text) (r : Reader)
    → get_state states id ≡ some state
    → state < 2 ^ 32
    → ticks ≤ 500
    → Streams r (
        contents (
          put_attr (codes "weather") (codes "current") id
          ∷ put_long (codes "weather") (codes "ticks") (pos ticks)
          ∷ []))
    → Loads
        (region_node fuel unset)
        2
        (record { states = states; state = 0; ticks = 0 })
        r
        (record { states = states; state = state; ticks = ticks })
        (λ r'. Unit {0})
unfolding region_node get_string get_int text_eq
current_Loads fuel unset state ticks states id r here small few streams =
    Loads-step (region_node fuel unset) 1 2 _ (record { states = states; state = state; ticks = 0 })
      _ r _ _ _ (omega arith) refl streams
      (λ line r₁ s₁. (
        r₁,
        ap (λ n. ok (record { states = states; state = n; ticks = 0 }, r₁))
            (ap state_index here ∙ omega arith),
        Loads-step (region_node fuel unset) 0 1 _
            (record { states = states; state = state; ticks = ticks }) _ r₁ _ _ _ (omega arith) refl
            s₁
            (λ line r₂ s₂. (
              r₂,
              ap (λ n. ok (record { states = states; state = state; ticks = n }, r₂))
                  (few_ticks ticks few),
              Loads-eof (region_node fuel unset) 0 _ r₂ s₂,
            )),
      ))
