-- ===== src/Equipment/Owners.antt =====
-- An object is in one place at most.
use sourcemud.Base.{ℕ, ◌+◌, ◌-◌, ◌≤◌, ◌≡◌, refl, ap, inl, inr, Option, none, some, arith}
use sourcemud.Base.Tests.{◌==◌, if◌then◌else◌, Bool-cases}
use sourcemud.Equipment.{
  Equipment, World, release, release_from, set_owner, set_slots, Place, right_hand, left_hand,
  on_body, on_back, on_waist, get_at, put_at, take_into,
}

abbrev pub occurs : ℕ → Option ℕ → ℕ
occurs obj none = 0
occurs obj (some p) = if p == obj then 1 else 0

-- How many slots have the object.
unfoldable pub slots : ℕ → Equipment → ℕ
slots obj e =
    occurs obj e.right_held
    + occurs obj e.left_held
    + occurs obj e.body_worn
    + occurs obj e.back_worn
    + occurs obj e.waist_worn

abbrev pub owned : Option ℕ → ℕ → ℕ
owned none c = 0
owned (some d) c = if d == c then 1 else 0

-- An object is in one slot at most, and in one of its owner's.
abbrev pub IsConsistent : World → Type 0
IsConsistent w = (c obj : ℕ) → slots obj (w.equipment c) ≤ owned (w.owner obj) c

pub slots-release :
    (obj p : ℕ) (e : Equipment)
    → slots p (release obj e) ≡ (if obj == p then slots p e - 1 else slots p e)
unfolding slots release
slots-release obj p e = ground arith

pub slots-put_at :
    (place : Place) (o : Option ℕ) (p : ℕ) (e : Equipment)
    → slots p (put_at place o e) + occurs p (get_at place e) ≡ slots p e + occurs p o
unfolding slots
slots-put_at right_hand o p e = omega arith
slots-put_at left_hand o p e = omega arith
slots-put_at on_body o p e = omega arith
slots-put_at on_back o p e = omega arith
slots-put_at on_waist o p e = omega arith

-- A slot that is empty stays so when an object is released.
get_at-release :
    (place : Place) (obj : ℕ) (e : Equipment)
    → get_at place e ≡ none
    → get_at place (release obj e) ≡ none
unfolding release
get_at-release right_hand obj e h = ground arith
get_at-release left_hand obj e h = ground arith
get_at-release on_body obj e h = ground arith
get_at-release on_back obj e h = ground arith
get_at-release on_waist obj e h = ground arith

-- The old owner of an object in one place leaves it nowhere.
pub release_from-slots :
    (old : Option ℕ) (obj : ℕ) (w : World)
    → ((d : ℕ) → slots obj (w.equipment d) ≤ owned old d)
    → (d p : ℕ)
    → slots p ((release_from old obj w).equipment d)
      ≡ (if obj == p then 0 else slots p (w.equipment d))
unfolding release_from
release_from-slots none obj w h d p = elim (Bool-cases (obj == p)) [
  | inl this ↦ let same : obj ≡ p = ground arith in rw this (omega (arith, rw same at (h d)))
  | inr other ↦ rw other refl
]
release_from-slots (some x) obj w h d p = elim (Bool-cases (x == d)) [
  | inr far ↦ elim (Bool-cases (obj == p)) [
    | inl this ↦
        let same : obj ≡ p = ground arith in
        let bound : slots obj (w.equipment d) ≤ 0 = rw far at (h d) in
        rw (far, this, ← same) (omega (arith, bound))
    | inr other ↦ rw (far, other) refl
  ]
  | inl near ↦
      let same : x ≡ d = ground arith in
      let bound : slots obj (w.equipment d) ≤ 1 = rw near at (h d) in
      rw (near, same, slots-release obj p (w.equipment d))
        (elim (Bool-cases (obj == p)) [
          | inl this ↦
              let same' : obj ≡ p = ground arith in rw (this, ← same') (omega (arith, bound))
          | inr other ↦ rw other refl
        ])
]

set_owner-slots :
    (c obj : ℕ) (w : World)
    → IsConsistent w
    → (d p : ℕ)
    → slots p ((set_owner c obj w).equipment d) ≡ (if obj == p then 0 else slots p (w.equipment d))
unfolding set_owner
set_owner-slots c obj w h d p = release_from-slots (w.owner obj) obj w (λ x. h x obj) d p

pub release_from-owner :
    (old : Option ℕ) (obj : ℕ) (w : World) → (release_from old obj w).owner ≡ w.owner
unfolding release_from
release_from-owner none obj w = refl
release_from-owner (some x) obj w = refl

set_owner-owner :
    (c obj : ℕ) (w : World) (p : ℕ)
    → (set_owner c obj w).owner p ≡ (if obj == p then some c else w.owner p)
unfolding set_owner
set_owner-owner c obj w p =
    ap (λ f. if obj == p then some c else f p) (release_from-owner (w.owner obj) obj w)

-- A new owner alone keeps the world consistent.
pub set_owner-IsConsistent :
    (c obj : ℕ) (w : World) → IsConsistent w → IsConsistent (set_owner c obj w)
set_owner-IsConsistent c obj w h d p =
    ground (arith, set_owner-slots c obj w h d p, set_owner-owner c obj w p, h d p)

release_from-get_at :
    (place : Place) (old : Option ℕ) (obj : ℕ) (w : World) (d : ℕ)
    → get_at place (w.equipment d) ≡ none
    → get_at place ((release_from old obj w).equipment d) ≡ none
unfolding release_from
release_from-get_at place none obj w d h = h
release_from-get_at place (some x) obj w d h = elim (Bool-cases (x == d)) [
  | inr far ↦ rw far h
  | inl near ↦
      let same : x ≡ d = ground arith in
      rw (near, same) (get_at-release place obj (w.equipment d) h)
]

-- The slots of a creature that takes an object into an empty slot.
pub take_into-slots :
    (place : Place) (c obj : ℕ) (w : World)
    → IsConsistent w
    → get_at place (w.equipment c) ≡ none
    → (d p : ℕ)
    → slots p ((take_into c obj place w).equipment d)
      ≡ (if obj == p then (if c == d then 1 else 0) else slots p (w.equipment d))
unfolding take_into
take_into-slots place c obj w h empty d p =
    let w' = set_owner c obj w in
    let empty' : get_at place (w'.equipment c) ≡ none =
      unfold set_owner in release_from-get_at place (w.owner obj) obj w c empty in
    let count = slots-put_at place (some obj) p (w'.equipment c) in
    let clear : occurs p (get_at place (w'.equipment c)) ≡ 0 = ap (occurs p) empty' in
    let before = set_owner-slots c obj w h d p in
    elim (Bool-cases (c == d)) [
      | inr far ↦ rw far before
      | inl near ↦
          let same : c ≡ d = ground arith in
          let before' = set_owner-slots c obj w h c p in
          rw (near, ← same)
            (elim (Bool-cases (obj == p)) [
              | inl this ↦ ground (arith, count, clear, before')
              | inr other ↦ ground (arith, count, clear, before')
            ])
    ]

pub take_into-owner :
    (place : Place) (c obj : ℕ) (w : World) (p : ℕ)
    → (take_into c obj place w).owner p ≡ (if obj == p then some c else w.owner p)
unfolding take_into
take_into-owner place c obj w p = set_owner-owner c obj w p

take_into-IsConsistent :
    (place : Place) (c obj : ℕ) (w : World)
    → IsConsistent w
    → get_at place (w.equipment c) ≡ none
    → IsConsistent (take_into c obj place w)
take_into-IsConsistent place c obj w h empty d p =
    ground
      (arith, take_into-slots place c obj w h empty d p, take_into-owner place c obj w p, h d p)

-- Fewer objects in the slots of one creature.
pub set_slots-IsConsistent :
    (c : ℕ) (f : Equipment → Equipment) (w : World)
    → IsConsistent w
    → ((p : ℕ) → slots p (f (w.equipment c)) ≤ slots p (w.equipment c))
    → IsConsistent (set_slots c f w)
set_slots-IsConsistent c f w h fewer d p = elim (Bool-cases (c == d)) [
  | inr far ↦ rw far (h d p)
  | inl near ↦ let same : c ≡ d = ground arith in rw (near, ← same) (omega (arith, fewer p, h c p))
]
