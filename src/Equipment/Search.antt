-- ===== src/Equipment/Search.antt =====
-- The slots as lists of what is in them, and the searches as positions in those.
use sourcemud.Base.{
  ℕ, zero, suc, ◌+◌, ◌^◌, ◌-◌, ◌<◌, ◌≡◌, refl, Bool, false, Option, none, some, List, [], ◌∷◌, ◌++◌,
  arith, inl, inr, ap, ◌∙◌, ◌≤◌,
}
use Prim.Native.Nat.{min}
use sourcemud.Base.Lists.{
  length, get_elem?, get_elem?_in_range, get_elem?_past, get_elem?-append, get_elem?_append_past,
  length-append,
}
use sourcemud.Base.Tests.{◌==◌, leb, leb→le, if◌then◌else◌, Bool-cases}
use sourcemud.Equipment.{Equipment}
use sourcemud.Equipment.Slots.{
  decrement, increment, subtract, at_slot, get_held_at, get_worn_at, past_slot, or_else,
  get_equip_at, find_slot, find_worn, find_held, find_after_held, find_equip,
}

-- The objects of some slots.
abbrev pub present : List (Option ℕ) → List ℕ
present [] = []
present (none ∷ os) = present os
present (some p ∷ os) = p ∷ present os

abbrev pub held_list : Equipment → List (Option ℕ)
held_list e = e.right_held ∷ e.left_held ∷ []

abbrev pub worn_list : Equipment → List (Option ℕ)
worn_list e = e.body_worn ∷ e.back_worn ∷ e.waist_worn ∷ []

decrement-suc : (i : ℕ) → suc i < 2 ^ 32 → decrement (suc i) ≡ i
decrement-suc i h = omega arith

pred_suc : (i : ℕ) → suc i - 1 ≡ i
pred_suc i = omega arith

suc_nonzero : (i : ℕ) → (suc i == 0) ≡ false
suc_nonzero i = ground arith

-- A search by number from some slots on.
Numbers : (ℕ → Option ℕ) → List (Option ℕ) → Type 0
Numbers f os = (i : ℕ) → i < 2 ^ 32 → f i ≡ get_elem? (present os) i

at_slot-Numbers :
    (o : Option ℕ) (os : List (Option ℕ)) (rest : ℕ → Option ℕ)
    → Numbers rest os
    → Numbers (λ i. at_slot o i rest) (o ∷ os)
unfolding Numbers
at_slot-Numbers none os rest h i bound = h i bound
at_slot-Numbers (some p) os rest h zero bound = refl
at_slot-Numbers (some p) os rest h (suc i) bound =
    rw (suc_nonzero i, decrement-suc i bound) (h i (omega arith))

nothing-Numbers : Numbers (λ i. none) []
unfolding Numbers
nothing-Numbers i h = refl

get_held_at-Numbers : (e : Equipment) → Numbers (get_held_at e) (held_list e)
unfolding get_held_at
get_held_at-Numbers e =
    at_slot-Numbers e.right_held _ _ (at_slot-Numbers e.left_held _ _ nothing-Numbers)

get_worn_at-Numbers : (e : Equipment) → Numbers (get_worn_at e) (worn_list e)
unfolding get_worn_at
get_worn_at-Numbers e =
    at_slot-Numbers e.body_worn _ _
      (at_slot-Numbers e.back_worn _ _ (at_slot-Numbers e.waist_worn _ _ nothing-Numbers))

or_else-Numbers :
    (r l : Option ℕ) (os : List (Option ℕ)) (rest : ℕ → Option ℕ)
    → Numbers rest os
    → (i : ℕ) → i < 2 ^ 32
    → or_else (get_elem? (present (r ∷ l ∷ [])) i) (rest (past_slot l (past_slot r i)))
      ≡ get_elem? (present (r ∷ l ∷ os)) i
unfolding Numbers
or_else-Numbers none none os rest h i bound = h i bound
or_else-Numbers none (some q) os rest h zero bound = refl
or_else-Numbers none (some q) os rest h (suc i) bound =
    rw (decrement-suc i bound) (h i (omega arith))
or_else-Numbers (some p) none os rest h zero bound = refl
or_else-Numbers (some p) none os rest h (suc i) bound =
    rw (decrement-suc i bound) (h i (omega arith))
or_else-Numbers (some p) (some q) os rest h zero bound = refl
or_else-Numbers (some p) (some q) os rest h (suc zero) bound = refl
or_else-Numbers (some p) (some q) os rest h (suc (suc i)) bound =
    rw (decrement-suc (suc i) bound, decrement-suc i (omega arith)) (h i (omega arith))

-- For each 32-bit number, `getHeldAt` and `getWornAt` give the object with that number, counted from
-- nought, of those held and of those worn, and `getEquipAt` that of the held ones followed by the worn
-- ones; past the last one they give NULL.
pub get_equip_at-present :
    (e : Equipment) (i : ℕ)
    → i < 2 ^ 32
    → (get_held_at e i ≡ get_elem? (present (held_list e)) i)
      × (get_worn_at e i ≡ get_elem? (present (worn_list e)) i)
      × (get_equip_at e i ≡ get_elem? (present (held_list e ++ worn_list e)) i)
unfolding get_equip_at Numbers
get_equip_at-present e i h = (
  get_held_at-Numbers e i h,
  get_worn_at-Numbers e i h,
  rw (get_held_at-Numbers e i h)
      (or_else-Numbers e.right_held e.left_held _ _ (get_worn_at-Numbers e) i h),
)

-- The objects that have the name.
module _ (name_match : ℕ → Bool) where
  abbrev pub named : List ℕ → List ℕ
  named [] = []
  named (p ∷ ps) = if name_match p then p ∷ named ps else named ps

  abbrev Found : (ℕ → ℕ → Option ℕ × ℕ) → List (Option ℕ) → Type 0
  Found f os =
      (count matches : ℕ)
      → 0 < count
      → matches + count < 2 ^ 32
      → f count matches ≡ (
        get_elem? (named (present os)) (count - 1),
        matches + min count (length (named (present os))),
      )

  find_slot-Found :
      (o : Option ℕ) (os : List (Option ℕ)) (rest : ℕ → ℕ → Option ℕ × ℕ)
      → Found rest os
      → Found (λ count matches. find_slot name_match o count matches rest) (o ∷ os)
  find_slot-Found none os rest h count matches pos bound = h count matches pos bound
  find_slot-Found (some p) os rest h zero matches pos bound = ground (arith, pos)
  find_slot-Found (some p) os rest h (suc zero) matches pos bound =
      elim (Bool-cases (name_match p)) [
        | inr other ↦ rw other (h 1 matches pos bound)
        | inl this ↦ rw this (ap (λ m. (some p, m)) (omega arith))
      ]
  find_slot-Found (some p) os rest h (suc (suc c)) matches pos bound =
      elim (Bool-cases (name_match p)) [
        | inr other ↦ rw other (h (suc (suc c)) matches pos bound)
        | inl this ↦
            let up : increment matches ≡ suc matches = omega arith in
            let down : decrement (suc (suc c)) ≡ suc c = decrement-suc (suc c) (omega arith) in
            rw
              (
                this,
                up,
                down,
                suc_nonzero c,
                h (suc c) (suc matches) (omega arith) (omega arith),
                pred_suc (suc c),
                pred_suc c,
              )
              (ap (λ m. (get_elem? (named (present os)) c, m)) (omega arith))
      ]

  nothing-Found : Found (λ count matches. (none, matches)) []
  nothing-Found count matches h bound = ap (λ m. (none, m)) (omega arith)

  -- The result of a search for the count-th of some objects.
  abbrev pub pick : List ℕ → ℕ → Option ℕ × ℕ
  pick ps count = (get_elem? ps (count - 1), min count (length ps))

  Found-pick :
      (f : ℕ → ℕ → Option ℕ × ℕ) (os : List (Option ℕ)) (count : ℕ)
      → Found f os
      → 0 < count
      → count < 2 ^ 32
      → f count 0 ≡ pick (named (present os)) count
  Found-pick f os count found h bound =
      found count 0 h (omega arith)
      ∙ ap (λ m. (get_elem? (named (present os)) (count - 1), m)) (omega arith)

  find_held-pick :
      (e : Equipment) (count : ℕ)
      → 0 < count
      → count < 2 ^ 32
      → find_held name_match e count ≡ pick (named (present (held_list e))) count
  unfolding find_held
  find_held-pick e count =
      Found-pick _ (held_list e) count
        (find_slot-Found e.right_held _ _ (find_slot-Found e.left_held _ _ nothing-Found))

  find_worn-pick :
      (e : Equipment) (count : ℕ)
      → 0 < count
      → count < 2 ^ 32
      → find_worn name_match e count ≡ pick (named (present (worn_list e))) count
  unfolding find_worn
  find_worn-pick e count = Found-pick _ (worn_list e) count (
      find_slot-Found e.body_worn _ _
        (find_slot-Found e.back_worn _ _ (find_slot-Found e.waist_worn _ _ nothing-Found)))

  present-append :
      (os os' : List (Option ℕ))
      → named (present (os ++ os')) ≡ named (present os) ++ named (present os')
  present-append [] os' = refl
  present-append (none ∷ os) os' = present-append os os'
  present-append (some p ∷ os) os' = elim (Bool-cases (name_match p)) [
    | inl this ↦ rw this (ap (λ ps. p ∷ ps) (present-append os os'))
    | inr other ↦ rw other (present-append os os')
  ]

  find_after_held-pick :
      (e : Equipment) (count : ℕ) (ps : List ℕ)
      → 0 < count
      → count < 2 ^ 32
      → find_after_held name_match e count (pick ps count)
        ≡ pick (ps ++ named (present (worn_list e))) count
  unfolding find_after_held
  find_after_held-pick e count ps h bound = elim (Bool-cases (leb count (length ps))) [
    | inl le ↦
        let within : count ≤ length ps = leb→le count (length ps) le in
        let (p, found) = get_elem?_in_range ps (count - 1) (omega arith) in
        let long = length-append ps (named (present (worn_list e))) in
        rw (get_elem?-append ps (named (present (worn_list e))) (count - 1) (omega arith), found)
          (ap (λ m. (some p, m)) (omega arith))
    | inr gt ↦
        let past : length ps < count = ground arith in
        let ys = named (present (worn_list e)) in
        let long = length-append ps ys in
        let rest = find_worn-pick e (count - length ps) (omega arith) (omega arith) in
        let place : count - 1 ≡ length ps + (count - length ps - 1) = omega arith in
        let left : subtract count (min count (length ps)) ≡ count - length ps = omega arith in
        let some_left : (count - length ps == 0) ≡ false = ground arith in
        rw
          (
            get_elem?_past ps (count - 1) (omega arith),
            left,
            some_left,
            rest,
            place,
            get_elem?_append_past ps ys (count - length ps - 1),
          )
          (ap (λ m. (get_elem? ys (count - length ps - 1), m)) (omega arith))
  ]

  -- For a count that is not nought, `findHeld` and `findWorn` give the count-th of the held and of the
  -- worn objects with the name, and `findEquip` that of the held ones followed by the worn ones, or NULL
  -- if there are fewer; `matches` gets the smaller of the count and how many objects have the name.
  pub find_equip-named :
      (e : Equipment) (count : ℕ)
      → 0 < count
      → count < 2 ^ 32
      → find_equip name_match e count ≡ pick (named (present (held_list e ++ worn_list e))) count
  unfolding find_equip find_after_held
  find_equip-named e count h bound =
      rw (find_held-pick e count h bound, present-append (held_list e) (worn_list e))
        (find_after_held-pick e count (named (present (held_list e))) h bound)
