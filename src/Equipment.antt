-- ===== src/Equipment.antt =====
-- src/mud/body.cc, and `setOwner` of src/mud/object.cc and src/mud/entity.cc: what creatures hold and
-- wear. Objects and entities go by their numbers.
pub mod Owners
pub mod Taking
pub mod Equipping
pub mod Slots
pub mod Search
pub mod History
pub mod Examples
use sourcemud.Base.{
  ℕ, zero, suc, ◌+◌, ◌-◌, ◌%◌, ◌^◌, Bool, true, false, ◌||◌, ◌&&◌, Option, none, some, List, [],
  ◌∷◌,
}
use sourcemud.Base.Int.{ℤ, pos, negsuc}
use sourcemud.Base.Tests.{◌==◌, if◌then◌else◌}

pub record Equipment : Type 0 where
  pub right_held : Option ℕ
  pub left_held : Option ℕ
  pub body_worn : Option ℕ
  pub back_worn : Option ℕ
  pub waist_worn : Option ℕ

-- The owner of each object, and the equipment of each creature.
pub record World : Type 0 where
  pub owner : ℕ → Option ℕ
  pub equipment : ℕ → Equipment

pub data EquipSlot : Type 0 where
  no_slot head torso arms legs hands feet neck body back waist : EquipSlot

-- Whether a slot has an object, and whether it is NULL.
abbrev pub has : Option ℕ → ℕ → Bool
has none obj = false
has (some p) obj = p == obj

abbrev pub is_null : Option ℕ → Bool
is_null none = true
is_null (some p) = false

unfoldable pub is_held : Equipment → ℕ → Bool
is_held e obj = if has e.right_held obj then true else has e.left_held obj

unfoldable pub is_worn : Equipment → ℕ → Bool
is_worn e obj =
    if has e.body_worn obj then true else if has e.waist_worn obj then true else has e.back_worn obj

unfoldable pub is_equipped : Equipment → ℕ → Bool
unfolding is_held is_worn
is_equipped e obj = is_held e obj || is_worn e obj

-- `Creature::ownerRelease`, and `Creature::releaseObject`, which tests the same slots in that order.
unfoldable pub release : ℕ → Equipment → Equipment
release obj e =
    if has e.right_held obj
    then record e { right_held = none }
    else if has e.left_held obj
    then record e { left_held = none }
    else if has e.body_worn obj
    then record e { body_worn = none }
    else if has e.back_worn obj
    then record e { back_worn = none }
    else if has e.waist_worn obj
    then record e { waist_worn = none }
    else e

abbrev pub assign {ℓ} : {A : Type ℓ} → (ℕ → A) → ℕ → A → ℕ → A
assign f p v q = if p == q then v else f q

-- The old owner lets go of the object. What an owner that is no creature does is a list of its own.
unfoldable pub release_from : Option ℕ → ℕ → World → World
unfolding release
release_from none obj w = w
release_from (some c) obj w = record w {
  equipment = assign w.equipment c (release obj (w.equipment c));
}

-- `Object::setOwner`
unfoldable pub set_owner : ℕ → ℕ → World → World
unfolding release_from
set_owner c obj w =
    let w' = release_from (w.owner obj) obj w in record w' { owner = assign w'.owner obj (some c) }

-- An assignment to the creature's equipment.
abbrev pub set_slots : ℕ → (Equipment → Equipment) → World → World
set_slots c f w = record w { equipment = assign w.equipment c (f (w.equipment c)) }

-- A slot of the equipment by its name, and an assignment to it.
pub data Place : Type 0 where
  right_hand left_hand on_body on_back on_waist : Place

abbrev pub get_at : Place → Equipment → Option ℕ
get_at right_hand e = e.right_held
get_at left_hand e = e.left_held
get_at on_body e = e.body_worn
get_at on_back e = e.back_worn
get_at on_waist e = e.waist_worn

abbrev pub put_at : Place → Option ℕ → Equipment → Equipment
put_at right_hand o e = record e { right_held = o }
put_at left_hand o e = record e { left_held = o }
put_at on_body o e = record e { body_worn = o }
put_at on_back o e = record e { back_worn = o }
put_at on_waist o e = record e { waist_worn = o }

-- `setOwner` and the assignment of a slot.
unfoldable pub take_into : ℕ → ℕ → Place → World → World
unfolding set_owner
take_into c obj place w = set_slots c (put_at place (some obj)) (set_owner c obj w)

unfoldable pub hold : ℕ → ℕ → World → World × ℤ
unfolding take_into
hold c obj w =
    if is_null (w.equipment c).right_held
    then (take_into c obj right_hand w, pos 0)
    else if is_null (w.equipment c).left_held
    then (take_into c obj left_hand w, pos 1)
    else (w, negsuc 0)

abbrev pub slot_is : EquipSlot → EquipSlot → Bool
slot_is torso torso = true
slot_is back back = true
slot_is waist waist = true
slot_is _ _ = false

-- The kind of slot of each object is a parameter.
module _ (equip_of : ℕ → EquipSlot) where
  unfoldable pub wear : ℕ → ℕ → World → World × ℤ
  unfolding take_into
  wear c obj w =
      if is_null (w.equipment c).body_worn && slot_is (equip_of obj) torso
      then (take_into c obj on_body w, pos 2)
      else if is_null (w.equipment c).back_worn && slot_is (equip_of obj) back
      then (take_into c obj on_back w, pos 3)
      else if is_null (w.equipment c).waist_worn && slot_is (equip_of obj) waist
      then (take_into c obj on_waist w, pos 4)
      else (w, negsuc 0)

  -- What is not worn is held.
  hold_instead : ℕ → ℕ → World × ℤ → World × ℤ
  unfolding hold
  hold_instead c obj (w, pos n) = (w, pos n)
  hold_instead c obj (w, negsuc n) = hold c obj w

  unfoldable pub equip : ℕ → ℕ → World → World × ℤ
  unfolding wear hold_instead
  equip c obj w = hold_instead c obj (wear c obj w)

unfoldable pub release_object : ℕ → ℕ → World → World
unfolding release
release_object c obj w = set_slots c (release obj) w

unfoldable pub swap_hands : ℕ → World → World
swap_hands c w =
    set_slots c (λ e. record e { right_held = e.left_held; left_held = e.right_held }) w

-- `Entity::destroy`, of an object.
unfoldable pub destroy : ℕ → World → World
unfolding release_from
destroy obj w = release_from (w.owner obj) obj w

-- One slot of `dropHeld` and `dropAll`: the room takes the object, if that can be dropped, and the slot
-- is NULL then.
module _ (is_dropable : ℕ → Bool) where
  unfoldable pub drop_found : ℕ → ℕ → Place → Option ℕ → World → World
  unfolding set_owner
  drop_found c room place none w = w
  drop_found c room place (some obj) w =
      if is_dropable obj then set_slots c (put_at place none) (set_owner room obj w) else w

  unfoldable pub drop_slot : ℕ → ℕ → Place → World → World
  unfolding drop_found
  drop_slot c room place w = drop_found c room place (get_at place (w.equipment c)) w

  unfoldable pub drop_held : ℕ → ℕ → World → World
  unfolding drop_slot
  drop_held c room w = drop_slot c room left_hand (drop_slot c room right_hand w)

  unfoldable pub drop_all : ℕ → ℕ → World → World
  unfolding drop_held drop_slot
  drop_all c room w =
      drop_slot c room on_waist
        (drop_slot c room on_back (drop_slot c room on_body (drop_held c room w)))
