-- ===== src/Equipment/Equipping.antt =====
-- Where `equip` puts an object.
use sourcemud.Base.{
  ℕ, ◌≡◌, ◌≢◌, ◌⊎◌, refl, inl, inr, Bool, true, false, ◌&&◌, Option, none, some, arith,
}
use sourcemud.Base.Int.{ℤ, pos, negsuc}
use sourcemud.Base.Tests.{◌==◌, if◌then◌else◌, Bool-cases}
use sourcemud.Equipment.{
  Equipment, World, EquipSlot, torso, back, waist, slot_is, is_null, Place, right_hand, left_hand,
  on_body, on_back, on_waist, get_at, take_into, hold, wear, hold_instead, equip,
}
use sourcemud.Equipment.Owners.{slots, IsConsistent, take_into-slots, take_into-owner}
use sourcemud.Equipment.Taking.{is_null-none, and_left}

take_into-here :
    (place : Place) (c obj : ℕ) (w : World)
    → get_at place ((take_into c obj place w).equipment c) ≡ some obj
unfolding take_into
take_into-here right_hand c obj w = ground arith
take_into-here left_hand c obj w = ground arith
take_into-here on_body c obj w = ground arith
take_into-here on_back c obj w = ground arith
take_into-here on_waist c obj w = ground arith

and_right : (a b : Bool) → (a && b) ≡ true → b ≡ true
and_right true b h = h
and_right false b h = cc

slot_is-torso : (k : EquipSlot) → slot_is k torso ≡ true → k ≡ torso
slot_is-torso torso h = refl
slot_is-torso _ h = cc

slot_is-back : (k : EquipSlot) → slot_is k back ≡ true → k ≡ back
slot_is-back back h = refl
slot_is-back _ h = cc

slot_is-waist : (k : EquipSlot) → slot_is k waist ≡ true → k ≡ waist
slot_is-waist waist h = refl
slot_is-waist _ h = cc

is_null-some : (o : Option ℕ) → is_null o ≡ false → o ≢ none
is_null-some none h = cc
is_null-some (some p) h = λ k. cc

module _ (equip_of : ℕ → EquipSlot) where
  -- What an object can be worn on.
  abbrev pub Wears : ℕ → Place → Type 0
  Wears obj on_body = equip_of obj ≡ torso
  Wears obj on_back = equip_of obj ≡ back
  Wears obj on_waist = equip_of obj ≡ waist
  Wears obj _ = ⊥

  -- A place that is free and that the object can be worn on.
  abbrev pub Suits : Equipment → ℕ → Place → Type 0
  Suits e obj place = Wears obj place × (get_at place e ≡ none)

  -- Where `equip` puts an object, and its result: where the object can be worn, else in a free hand, the
  -- right one first.
  abbrev pub Goes : Equipment → ℕ → Place → ℤ → Type 0
  Goes e obj on_body code = Suits e obj on_body × (code ≡ pos 2)
  Goes e obj on_back code = Suits e obj on_back × (code ≡ pos 3)
  Goes e obj on_waist code = Suits e obj on_waist × (code ≡ pos 4)
  Goes e obj right_hand code =
      ((place : Place) → ¬ Suits e obj place) × (e.right_held ≡ none) × (code ≡ pos 0)
  Goes e obj left_hand code =
      ((place : Place) → ¬ Suits e obj place)
      × (e.right_held ≢ none)
      × (e.left_held ≡ none)
      × (code ≡ pos 1)

  -- What `equip` leaves: the object at its place, in no other slot anywhere, and the creature as its
  -- owner; or, where it can be worn nowhere and both hands are full, the same world, with -1.
  abbrev pub Equips : ℕ → ℕ → World → World × ℤ → Type 0
  Equips c obj w r =
      ((place : Place) × Goes (w.equipment c) obj place r.1
        × (get_at place (r.0.equipment c) ≡ some obj)
        × ((d p : ℕ)
            → slots p (r.0.equipment d)
              ≡ (if obj == p then (if c == d then 1 else 0) else slots p (w.equipment d)))
        × ((p : ℕ) → r.0.owner p ≡ (if obj == p then some c else w.owner p)))
      ⊎ (((place : Place) → ¬ Suits (w.equipment c) obj place)
          × ((w.equipment c).right_held ≢ none)
          × ((w.equipment c).left_held ≢ none)
          × (r.1 ≡ negsuc 0)
          × (r.0 ≡ w))

  take_into-Equips :
      (place : Place) (c obj : ℕ) (code : ℤ) (w : World)
      → IsConsistent w
      → get_at place (w.equipment c) ≡ none
      → Goes (w.equipment c) obj place code
      → Equips c obj w (take_into c obj place w, code)
  take_into-Equips place c obj code w h free goes = inl (
    place,
    goes,
    take_into-here place c obj w,
    take_into-slots place c obj w h free,
    take_into-owner place c obj w,
  )

  -- Where the three tests of `wear` fail, the object can be worn nowhere.
  unsuited :
      (e : Equipment) (obj : ℕ)
      → (is_null e.body_worn && slot_is (equip_of obj) torso) ≡ false
      → (is_null e.back_worn && slot_is (equip_of obj) back) ≡ false
      → (is_null e.waist_worn && slot_is (equip_of obj) waist) ≡ false
      → (place : Place) → ¬ Suits e obj place
  unsuited e obj x y z right_hand (kind, free) = kind
  unsuited e obj x y z left_hand (kind, free) = kind
  unsuited e obj x y z on_body (kind, free) = let bad : true ≡ false = rw (kind, free) at x in cc
  unsuited e obj x y z on_back (kind, free) = let bad : true ≡ false = rw (kind, free) at y in cc
  unsuited e obj x y z on_waist (kind, free) = let bad : true ≡ false = rw (kind, free) at z in cc

  hold-Equips :
      (c obj : ℕ) (w : World)
      → IsConsistent w
      → ((place : Place) → ¬ Suits (w.equipment c) obj place)
      → Equips c obj w (hold c obj w)
  unfolding hold
  hold-Equips c obj w h nowhere = elim (Bool-cases (is_null (w.equipment c).right_held)) [
    | inl free ↦
        let o = is_null-none _ free in
        rw free (take_into-Equips right_hand c obj (pos 0) w h o (nowhere, o, refl))
    | inr full ↦ rw full (elim (Bool-cases (is_null (w.equipment c).left_held)) [
      | inl free ↦
          let o = is_null-none _ free in
          rw free
            (take_into-Equips left_hand c obj (pos 1) w h o (nowhere, is_null-some _ full, o, refl))
      | inr full' ↦ rw full' (inr (nowhere, is_null-some _ full, is_null-some _ full', refl, refl))
    ])
  ]

  -- In a world in which every object is in one place at most, `equip` puts an object where it can be worn
  -- and that place is free, with 2 on the body, 3 on the back and 4 at the waist; an object that
  -- suits no place goes into the right hand, with 0, or with that full into the left one, with 1. It
  -- is then in no other slot anywhere, the creature owns it, and nothing else moves or changes its
  -- owner. With both hands full too, `equip` gives -1 and changes nothing.
  pub equip-Equips :
      (c obj : ℕ) (w : World) → IsConsistent w → Equips c obj w (equip equip_of c obj w)
  unfolding equip wear hold_instead
  equip-Equips c obj w h =
      elim (Bool-cases (is_null (w.equipment c).body_worn && slot_is (equip_of obj) torso)) [
        | inl t ↦
            let o = is_null-none _ (and_left _ _ t) in
            let k = slot_is-torso _ (and_right _ _ t) in
            rw t (take_into-Equips on_body c obj (pos 2) w h o ((k, o), refl))
        | inr x ↦
            rw x
              (elim (Bool-cases
                (is_null (w.equipment c).back_worn && slot_is (equip_of obj) back)) [
                  | inl t ↦
                      let o = is_null-none _ (and_left _ _ t) in
                      let k = slot_is-back _ (and_right _ _ t) in
                      rw t (take_into-Equips on_back c obj (pos 3) w h o ((k, o), refl))
                  | inr y ↦ rw y (waist_or_hand x y)
                ])
      ]
    where
      waist_or_hand :
          (is_null (w.equipment c).body_worn && slot_is (equip_of obj) torso) ≡ false
          → (is_null (w.equipment c).back_worn && slot_is (equip_of obj) back) ≡ false
          → Equips c obj w (
              hold_instead equip_of c obj (
                if is_null (w.equipment c).waist_worn && slot_is (equip_of obj) waist
                then (take_into c obj on_waist w, pos 4)
                else (w, negsuc 0)))
      waist_or_hand x y =
          elim (Bool-cases (is_null (w.equipment c).waist_worn && slot_is (equip_of obj) waist)) [
            | inl t ↦
                let o = is_null-none _ (and_left _ _ t) in
                let k = slot_is-waist _ (and_right _ _ t) in
                rw t (take_into-Equips on_waist c obj (pos 4) w h o ((k, o), refl))
            | inr z ↦ rw z (hold-Equips c obj w h (unsuited (w.equipment c) obj x y z))
          ]
