-- ===== src/Strings/Strip.antt =====
-- `strip`, `capwords` and `trim` of src/common/strings.cc.
use sourcemud.Base.{
  ℕ, suc, ◌≡◌, ◌⊎◌, refl, ap, ◌∙◌, Bool, true, false, inl, inr, Option, none, some, [], ◌∷◌, ◌++◌,
  arith, ◌&&◌, not,
}
use sourcemud.Base.Lists.{length, All}
use sourcemud.Base.Options.{◌>>=◌}
use sourcemud.Base.Tests.{◌==◌, if◌then◌else◌, Bool-cases}
use sourcemud.Base.Text.{Text}
use sourcemud.Strings.Chars.{is_space, to_upper}

-- The text up to `back`, the last character that is no space.
keep_front : ℕ → Text → Text
keep_front c [] = if is_space c then [] else c ∷ []
keep_front c (d ∷ ds) = c ∷ d ∷ ds

unfoldable pub strip_back : Text → Text
unfolding keep_front
strip_back [] = []
strip_back (c ∷ cs) = keep_front c (strip_back cs)

-- `front` moves on over spaces while it stands before `back`.
strip_front : Text → Text
strip_front [] = []
strip_front (c ∷ []) = c ∷ []
strip_front (c ∷ d ∷ ds) =
    let rest = strip_front (d ∷ ds) in if is_space c then rest else c ∷ d ∷ ds

-- `if (front == back) return std::string();`
drop_single : Text → Text
drop_single [] = []
drop_single (c ∷ []) = []
drop_single (c ∷ d ∷ ds) = c ∷ d ∷ ds

unfoldable pub strip : Text → Text
unfolding strip_back strip_front drop_single
strip s = drop_single (strip_front (strip_back s))

drop_single-length : (s : Text) → drop_single s ≡ (if length s == 1 then [] else s)
unfolding drop_single
drop_single-length [] = refl
drop_single-length (c ∷ []) = refl
drop_single-length (c ∷ d ∷ ds) = ground arith

-- `capwords`, from a state that tells whether a word may start.
capwords_from : Bool → Text → Text
capwords_from space [] = []
capwords_from space (c ∷ cs) =
    (if not (is_space c) && space then to_upper c else c) ∷ capwords_from (is_space c) cs

pub capwords : Text → Text
unfolding capwords_from
capwords = capwords_from true

-- `strchr(text, c)` as an index.
unfoldable pub index_of : ℕ → Text → Option ℕ
index_of c [] = none
index_of c (x ∷ xs) = if x == c then some 0 else index_of c xs >>= λ i. some (suc i)

-- `trim` keeps the characters of `accept`.
pub trim : Text → Text → Text
trim [] accept = []
trim (c ∷ cs) accept = elim (index_of c accept) [
  | some i ↦ c ∷ trim cs accept
  | none ↦ trim cs accept
]

abbrev pub Spaces : Text → Type 0
Spaces = All (λ c. is_space c ≡ true)

-- The last character is no space.
abbrev pub EndsSolid : Text → Type 0
EndsSolid [] = ⊥
EndsSolid (c ∷ []) = is_space c ≡ false
EndsSolid (c ∷ d ∷ ds) = EndsSolid (d ∷ ds)

abbrev pub StartsSolid : Text → Type 0
StartsSolid [] = ⊥
StartsSolid (c ∷ cs) = is_space c ≡ false

-- Empty, or with no space at either end.
abbrev pub IsTrimmed : Text → Type 0
IsTrimmed s = (s ≡ []) ⊎ (StartsSolid s × EndsSolid s)

-- A text cut in front of spaces, with no space before the cut.
abbrev CutBack : Text → Text → Type 0
CutBack s b = (trail : Text) × (s ≡ b ++ trail) × Spaces trail × ((b ≡ []) ⊎ EndsSolid b)

keep_front-CutBack : (c : ℕ) (cs b : Text) → CutBack cs b → CutBack (c ∷ cs) (keep_front c b)
unfolding keep_front
keep_front-CutBack c cs [] (trail, e, spaces, ends) = elim (Bool-cases (is_space c)) [
  | inl space ↦ rw (space, keep_front) (c ∷ trail, ap (λ l. c ∷ l) e, (space, spaces), inl refl)
  | inr solid ↦ rw (solid, keep_front) (trail, ap (λ l. c ∷ l) e, spaces, inr solid)
]
keep_front-CutBack c cs (d ∷ ds) (trail, e, spaces, ends) =
    (trail, ap (λ l. c ∷ l) e, spaces, elim ends [ inl none_left ↦ cc | inr h ↦ inr h ])

strip_back-CutBack : (s : Text) → CutBack s (strip_back s)
unfolding strip_back
strip_back-CutBack [] = ([], refl, tt, inl refl)
strip_back-CutBack (c ∷ cs) = keep_front-CutBack c cs (strip_back cs) (strip_back-CutBack cs)

strip_front_lem :
    (s : Text)
    → EndsSolid s
    → (lead : Text) × (s ≡ lead ++ strip_front s)
      × Spaces lead
      × StartsSolid (strip_front s)
      × EndsSolid (strip_front s)
unfolding strip_front
strip_front_lem [] h = absurd h
strip_front_lem (c ∷ []) h = ([], refl, tt, h, h)
strip_front_lem (c ∷ d ∷ ds) h =
    let (lead, e, spaces, starts, ends) = strip_front_lem (d ∷ ds) h in
    elim (Bool-cases (is_space c)) [
      | inl space ↦
          (c ∷ lead, rw space (ap (λ l. c ∷ l) e), (space, spaces), rw space starts, rw space ends)
      | inr solid ↦ ([], rw solid, tt, rw solid solid, rw solid h)
    ]

-- `strip` cuts the spaces off both ends, except that a text with a single character between its
-- spaces becomes empty.
pub strip-IsTrimmed :
    (s : Text)
    → (lead core trail : Text) × (s ≡ lead ++ core ++ trail)
      × Spaces lead
      × Spaces trail
      × IsTrimmed core
      × (strip s ≡ (if length core == 1 then [] else core))
unfolding strip
strip-IsTrimmed s =
    let (trail, e, spaces, ends) = strip_back-CutBack s in
    elim ends [
      | inl all_space ↦ (
        [],
        [],
        trail,
        e ∙ ap (λ l. l ++ trail) all_space,
        tt,
        spaces,
        inl refl,
        rw (all_space, strip),
      )
      | inr solid ↦
          let (lead, e', spaces', starts, last) = strip_front_lem (strip_back s) solid in
          (
            lead,
            strip_front (strip_back s),
            trail,
            e ∙ ap (λ l. l ++ trail) e',
            spaces',
            spaces,
            inr (starts, last),
            drop_single-length (strip_front (strip_back s)),
          )
    ]

keep_front_more : (c : ℕ) (cs : Text) (d : ℕ) (ds : Text) → cs ≡ d ∷ ds → keep_front c cs ≡ c ∷ cs
unfolding keep_front
keep_front_more c [] d ds e = cc
keep_front_more c (x ∷ xs) d ds e = refl

append_cons : (p : Text) (c : ℕ) (cs : Text) → (d : ℕ) × (ds : Text) × (p ++ (c ∷ cs) ≡ d ∷ ds)
append_cons [] c cs = (c, cs, refl)
append_cons (x ∷ p) c cs = (x, p ++ (c ∷ cs), refl)

strip_back_behind :
    (p u : Text) (c : ℕ) (cs : Text) → strip_back u ≡ c ∷ cs → strip_back (p ++ u) ≡ p ++ (c ∷ cs)
unfolding strip_back
strip_back_behind [] u c cs e = e
strip_back_behind (x ∷ p) u c cs e =
    let (d, ds, more) = append_cons p c cs in
    rw (strip_back_behind p u c cs e) (keep_front_more x (p ++ (c ∷ cs)) d ds more)

strip_front_spaces :
    (p : Text) (c d : ℕ) (ds : Text)
    → All (λ x. is_space x ≡ true) p
    → is_space c ≡ false
    → strip_front (p ++ (c ∷ d ∷ ds)) ≡ c ∷ d ∷ ds
unfolding strip_front
strip_front_spaces [] c d ds all plain = rw plain refl
strip_front_spaces (x ∷ []) c d ds all plain = rw (all.0, plain) refl
strip_front_spaces (x ∷ y ∷ p) c d ds all plain =
    rw all.0 (strip_front_spaces (y ∷ p) c d ds all.1 plain)

-- Spaces in front do not matter, where two characters or more are left.
pub strip_indented :
    (p u : Text) (c d : ℕ) (ds : Text)
    → All (λ x. is_space x ≡ true) p
    → is_space c ≡ false
    → strip_back u ≡ c ∷ d ∷ ds
    → strip (p ++ u) ≡ c ∷ d ∷ ds
unfolding strip
strip_indented p u c d ds all plain e =
    rw (strip_back_behind p u c (d ∷ ds) e, strip_front_spaces p c d ds all plain)
      (unfold drop_single in refl)
