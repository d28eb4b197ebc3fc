-- ===== src/Weather/Draws.antt =====
-- The draw of `update` of src/mud/weather.cc, from an urn with the rules of a state.
use sourcemud.Base.{
  ℕ, zero, suc, ◌+◌, ◌-◌, ◌*◌, ◌%◌, ◌≡◌, ◌≢◌, ◌⊎◌, refl, subst, inl, inr, Option, none, some, List,
  [], ◌∷◌, arith,
}
use sourcemud.Base.Lists.{All, get_elem?, take}
use sourcemud.Base.Tests.{leb, if◌then◌else◌, Bool-cases, Option-cases}
use sourcemud.Base.Text.{Text, text_eq, text_eq_iff}
use sourcemud.Clock.{ticks_per_hour}
use sourcemud.Weather.{
  WeatherChange, WeatherState, WeatherRegion, get_state, random_get, take_change, change_state,
  change_weather,
}

-- As many copies of a rule as its chance says.
abbrev pub copies : ℕ → WeatherChange → List WeatherChange → List WeatherChange
copies zero c cs = cs
copies (suc n) c cs = c ∷ copies n c cs

abbrev pub urn : List WeatherChange → List WeatherChange
urn [] = []
urn (c ∷ cs) = copies c.chance c (urn cs)

get_elem?-copies :
    (k n : ℕ) (c : WeatherChange) (cs : List WeatherChange)
    → get_elem? (copies k c cs) n ≡ (if leb (suc n) k then some c else get_elem? cs (n - k))
get_elem?-copies zero n c cs = ground arith
get_elem?-copies (suc k) zero c cs = ground arith
get_elem?-copies (suc k) (suc n) c cs = ground (arith, get_elem?-copies k n c cs)

take_change-urn : (n : ℕ) (cs : List WeatherChange) → take_change (n + 1) cs ≡ get_elem? (urn cs) n
unfolding take_change
take_change-urn n [] = refl
take_change-urn n (c ∷ cs) = elim (Bool-cases (leb (n + 1) c.chance)) [
  | inl e ↦ ground (arith, get_elem?-copies c.chance n c (urn cs))
  | inr e ↦
      ground (arith, get_elem?-copies c.chance n c (urn cs), take_change-urn (n - c.chance) cs)
]

-- What a draw from the urn of the rules makes of a region.
abbrev pub drawn : ℕ → ℕ → WeatherState → WeatherRegion → WeatherRegion × List Text
drawn roll hours s r =
    let moved = change_state (get_elem? (urn s.changes) (roll % 100)) r in
    (record moved.0 { ticks = (hours % 4 + 1) * ticks_per_hour }, moved.1)

pub change_weather-drawn :
    (roll hours : ℕ) (s : WeatherState) (r : WeatherRegion)
    → get_elem? r.states r.state ≡ some s
    → change_weather roll hours r ≡ some (drawn roll hours s r)
unfolding change_weather random_get
change_weather-drawn roll hours s r e = rw (e, take_change-urn (roll % 100) s.changes) refl

-- The first of the states with a name is at an index.
abbrev pub IsFirst : List WeatherState → Text → ℕ → Type 0
IsFirst states name i =
    ((s : WeatherState) × (get_elem? states i ≡ some s) × (s.id ≡ name))
    × All (λ s. s.id ≢ name) (take i states)

-- What a rule, or none, does in a state, and what is announced.
abbrev pub Moved : Option WeatherChange → List WeatherState → ℕ → WeatherRegion × List Text → Type 0
Moved none states state (r, told) = (r.state ≡ state) × (told ≡ [])
Moved (some c) states state (r, told) =
    (IsFirst states c.to r.state × (told ≡ c.desc ∷ []))
    ⊎ (All (λ s. s.id ≢ c.to) states × (r.state ≡ state) × (told ≡ []))

get_state-unnamed :
    (states : List WeatherState) (name : Text)
    → get_state states name ≡ none
    → All (λ s. s.id ≢ name) states
unfolding get_state
get_state-unnamed [] name e = tt
get_state-unnamed (s ∷ ss) name e = elim (Bool-cases (text_eq s.id name)) [
  | inl same ↦ ground arith
  | inr other ↦ (
    λ k. ground (arith, (text_eq_iff s.id name).1 k),
    elim (Option-cases (get_state ss name)) [
      | inl gone ↦ get_state-unnamed ss name gone
      | inr (j, here) ↦ ground arith
    ],
  )
]

get_state-IsFirst :
    (states : List WeatherState) (name : Text) (i : ℕ)
    → get_state states name ≡ some i
    → IsFirst states name i
unfolding get_state
get_state-IsFirst [] name i e = cc
get_state-IsFirst (s ∷ ss) name i e = elim (Bool-cases (text_eq s.id name)) [
  | inl same ↦
      let here : 0 ≡ i = ground arith in
      subst (IsFirst (s ∷ ss) name) here ((s, refl, (text_eq_iff s.id name).0 same), tt)
  | inr other ↦ elim (Option-cases (get_state ss name)) [
    | inl gone ↦ ground arith
    | inr (j, there) ↦
        let later : suc j ≡ i = ground arith in
        let (found, front) = get_state-IsFirst ss name j there in
        subst (IsFirst (s ∷ ss) name) later
          (found, (λ k. ground (arith, (text_eq_iff s.id name).1 k), front))
  ]
]

pub drawn-Moved :
    (roll hours : ℕ) (s : WeatherState) (r : WeatherRegion)
    → Moved (get_elem? (urn s.changes) (roll % 100)) r.states r.state (drawn roll hours s r)
unfolding change_state
drawn-Moved roll hours s r = moved (get_elem? (urn s.changes) (roll % 100))
  where
    moved :
        (c : Option WeatherChange)
        → Moved c r.states r.state (
          record (change_state c r).0 { ticks = (hours % 4 + 1) * ticks_per_hour },
          (change_state c r).1,
        )
    moved none = (refl, refl)
    moved (some c) = elim (Option-cases (get_state r.states c.to)) [
      | inl e ↦
          inr (
            get_state-unnamed r.states c.to e,
            rw (change_state, e) refl,
            rw (change_state, e) refl,
          )
      | inr (i, e) ↦
          inl
            (rw (change_state, e) (get_state-IsFirst r.states c.to i e), rw (change_state, e) refl)
    ]

pub drawn-states :
    (roll hours : ℕ) (s : WeatherState) (r : WeatherRegion)
    → (drawn roll hours s r).0.states ≡ r.states
unfolding change_state
drawn-states roll hours s r = kept (get_elem? (urn s.changes) (roll % 100))
  where
    kept : (c : Option WeatherChange) → (change_state c r).0.states ≡ r.states
    kept none = refl
    kept (some c) = elim (Option-cases (get_state r.states c.to)) [
      | inl e ↦ rw (change_state, e) refl
      | inr (i, e) ↦ rw (change_state, e) refl
    ]
