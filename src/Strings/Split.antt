-- ===== src/Strings/Split.antt =====
-- `explode` and `implode` of src/common/strings.cc.
use mathlib.Core.List.{append-nil}
use sourcemud.Base.{ℕ, ◌≡◌, ◌≢◌, refl, ap, ◌∙◌, inl, inr, List, [], ◌∷◌, ◌++◌, arith}
use sourcemud.Base.Lists.{All}
use sourcemud.Base.Tests.{◌==◌, if◌then◌else◌, Bool-cases}
use sourcemud.Base.Text.{Text}

-- One character in front of the first piece.
abbrev onto_first : ℕ → List Text → List Text
onto_first c [] = (c ∷ []) ∷ []
onto_first c (p ∷ ps) = (c ∷ p) ∷ ps

-- The scan for `ch`: what stands up to the next one is a piece, and so is what is left.
pieces : ℕ → Text → List Text
pieces ch [] = [] ∷ []
pieces ch (c ∷ cs) = let rest = pieces ch cs in if c == ch then [] ∷ rest else onto_first c rest

pub explode : Text → ℕ → List Text
unfolding pieces
explode [] ch = []
explode (c ∷ cs) ch = pieces ch (c ∷ cs)

-- The loop of `implode` behind the first entry.
unfoldable pub append_with : ℕ → List Text → Text
append_with ch [] = []
append_with ch (p ∷ ps) = ch ∷ (p ++ append_with ch ps)

unfoldable pub implode : List Text → ℕ → Text
unfolding append_with
implode [] ch = []
implode (p ∷ ps) ch = p ++ append_with ch ps

implode-onto_first : (c ch : ℕ) (ps : List Text) → implode (onto_first c ps) ch ≡ c ∷ implode ps ch
unfolding implode
implode-onto_first c ch [] = refl
implode-onto_first c ch (p ∷ ps) = refl

pieces_cons : (ch : ℕ) (s : Text) → (p : Text) × (ps : List Text) × (pieces ch s ≡ p ∷ ps)
unfolding pieces
pieces_cons ch [] = ([], [], refl)
pieces_cons ch (c ∷ cs) =
    let (p, ps, e) = pieces_cons ch cs in
    elim (Bool-cases (c == ch)) [
      | inl cut ↦ ([], p ∷ ps, rw (cut, e))
      | inr more ↦ (c ∷ p, ps, rw (more, e))
    ]

implode-pieces : (ch : ℕ) (s : Text) → implode (pieces ch s) ch ≡ s
unfolding pieces implode
implode-pieces ch [] = refl
implode-pieces ch (c ∷ cs) =
    let (p, ps, e) = pieces_cons ch cs in ground (arith, implode-pieces ch cs)

-- Joining what was split gives the text back, whatever the separator.
pub implode-explode : (s : Text) (ch : ℕ) → implode (explode s ch) ch ≡ s
unfolding explode implode
implode-explode [] ch = refl
implode-explode (c ∷ cs) ch = implode-pieces ch (c ∷ cs)

-- No piece holds the separator.
abbrev pub Lacks : ℕ → Text → Type 0
Lacks ch p = All (λ c. c ≢ ch) p

pieces_last : (ch : ℕ) (p : Text) → Lacks ch p → pieces ch p ≡ p ∷ []
unfolding pieces
pieces_last ch [] h = refl
pieces_last ch (c ∷ p) h = ground (arith, pieces_last ch p h.1, h.0)

pieces_cut :
    (ch : ℕ) (p rest : Text) → Lacks ch p → pieces ch (p ++ (ch ∷ rest)) ≡ p ∷ pieces ch rest
unfolding pieces
pieces_cut ch [] rest h = ground arith
pieces_cut ch (c ∷ p) rest h = ground (arith, pieces_cut ch p rest h.1, h.0)

pieces-implode :
    (ch : ℕ) (p : Text) (ps : List Text)
    → Lacks ch p
    → All (Lacks ch) ps
    → pieces ch (p ++ append_with ch ps) ≡ p ∷ ps
unfolding append_with
pieces-implode ch p [] h hs = rw append-nil (pieces_last ch p h)
pieces-implode ch p (q ∷ qs) h hs =
    pieces_cut ch p (q ++ append_with ch qs) h ∙ ap (λ l. p ∷ l) (pieces-implode ch q qs hs.0 hs.1)

explode_nonempty : (ch : ℕ) (s : Text) → s ≢ [] → explode s ch ≡ pieces ch s
unfolding explode
explode_nonempty ch [] h = absurd (h refl)
explode_nonempty ch (c ∷ cs) h = refl

implode-ne-nil : (ch : ℕ) (p : Text) (ps : List Text) → p ∷ ps ≢ [] ∷ [] → implode (p ∷ ps) ch ≢ []
unfolding implode
implode-ne-nil ch [] [] h e = h refl
implode-ne-nil ch [] (q ∷ qs) h e = cc
implode-ne-nil ch (c ∷ p) ps h e = cc

-- Splitting what was joined gives the pieces back, if none holds the separator; but a single empty
-- piece gives none.
pub explode-implode :
    (ps : List Text) (ch : ℕ) → All (Lacks ch) ps → ps ≢ [] ∷ [] → explode (implode ps ch) ch ≡ ps
unfolding implode
explode-implode [] ch hs h = unfold explode in refl
explode-implode (p ∷ ps) ch hs h =
    explode_nonempty ch (implode (p ∷ ps) ch) (implode-ne-nil ch p ps h)
    ∙ pieces-implode ch p ps hs.0 hs.1

onto_first-Lacks :
    (c ch : ℕ) (ps : List Text) → c ≢ ch → All (Lacks ch) ps → All (Lacks ch) (onto_first c ps)
onto_first-Lacks c ch [] h hs = ((h, tt), tt)
onto_first-Lacks c ch (p ∷ ps) h hs = ((h, hs.0), hs.1)

pieces-Lacks : (ch : ℕ) (s : Text) → All (Lacks ch) (pieces ch s)
unfolding pieces
pieces-Lacks ch [] = (tt, tt)
pieces-Lacks ch (c ∷ cs) = elim (Bool-cases (c == ch)) [
  | inl e ↦ rw e (tt, pieces-Lacks ch cs)
  | inr e ↦ rw e (onto_first-Lacks c ch (pieces ch cs) (λ same. ground arith) (pieces-Lacks ch cs))
]

-- What a text is split into does not hold the separator.
pub explode-Lacks : (s : Text) (ch : ℕ) → All (Lacks ch) (explode s ch)
unfolding explode
explode-Lacks [] ch = tt
explode-Lacks (c ∷ cs) ch = pieces-Lacks ch (c ∷ cs)
