-- ===== src/Equipment/Taking.antt =====
-- What `hold`, `wear` and `equip` do to the slots and the owners.
use sourcemud.Base.{ℕ, ◌≡◌, refl, inl, inr, Bool, true, false, ◌&&◌, Option, none, some, arith}
use sourcemud.Base.Int.{ℤ, pos, negsuc}
use sourcemud.Base.Tests.{◌==◌, if◌then◌else◌, Bool-cases}
use sourcemud.Equipment.{
  World, EquipSlot, torso, back, waist, slot_is, is_null, Place, right_hand, left_hand, on_body,
  on_back, on_waist, get_at, take_into, hold, wear, hold_instead, equip,
}
use sourcemud.Equipment.Owners.{slots, IsConsistent, take_into-slots, take_into-owner}

-- What a creature that takes an object does to every slot: the object is in one slot of the creature's
-- then and in none else. One that refuses it, with a negative result, changes nothing.
unfoldable pub Moves : ℕ → ℕ → World → World × ℤ → Type 0
Moves c obj w (w', pos n) =
    ((d p : ℕ)
      → slots p (w'.equipment d)
        ≡ (if obj == p then (if c == d then 1 else 0) else slots p (w.equipment d)))
    × ((p : ℕ) → w'.owner p ≡ (if obj == p then some c else w.owner p))
Moves c obj w (w', negsuc n) = w' ≡ w

pub Moves-IsConsistent :
    (c obj : ℕ) (w : World) (r : World × ℤ) → IsConsistent w → Moves c obj w r → IsConsistent r.0
unfolding Moves
Moves-IsConsistent c obj w (w', pos n) h moves d p = ground (arith, moves.0 d p, moves.1 p, h d p)
Moves-IsConsistent c obj w (w', negsuc n) h same d p = rw same (h d p)

pub is_null-none : (o : Option ℕ) → is_null o ≡ true → o ≡ none
is_null-none none h = refl
is_null-none (some p) h = ground arith

take_into-Moves :
    (place : Place) (c obj n : ℕ) (w : World)
    → IsConsistent w
    → is_null (get_at place (w.equipment c)) ≡ true
    → Moves c obj w (take_into c obj place w, pos n)
unfolding Moves
take_into-Moves place c obj n w h free =
    (take_into-slots place c obj w h (is_null-none _ free), take_into-owner place c obj w)

stay-Moves : (c obj n : ℕ) (w : World) → Moves c obj w (w, negsuc n)
unfolding Moves
stay-Moves c obj n w = refl

pub hold-Moves : (c obj : ℕ) (w : World) → IsConsistent w → Moves c obj w (hold c obj w)
unfolding hold
hold-Moves c obj w h = elim (Bool-cases (is_null (w.equipment c).right_held)) [
  | inl free ↦ rw free (take_into-Moves right_hand c obj 0 w h free)
  | inr full ↦ rw full (elim (Bool-cases (is_null (w.equipment c).left_held)) [
    | inl free ↦ rw free (take_into-Moves left_hand c obj 1 w h free)
    | inr full' ↦ rw full' (stay-Moves c obj 0 w)
  ])
]

pub and_left : (a b : Bool) → (a && b) ≡ true → a ≡ true
and_left true b h = refl
and_left false b h = h

module _ (equip_of : ℕ → EquipSlot) where
  pub wear-Moves : (c obj : ℕ) (w : World) → IsConsistent w → Moves c obj w (wear equip_of c obj w)
  unfolding wear
  wear-Moves c obj w h =
      elim (Bool-cases (is_null (w.equipment c).body_worn && slot_is (equip_of obj) torso)) [
        | inl free ↦ rw free (take_into-Moves on_body c obj 2 w h (and_left _ _ free))
        | inr full ↦
            rw full
              (elim (Bool-cases
                (is_null (w.equipment c).back_worn && slot_is (equip_of obj) back)) [
                  | inl free ↦ rw free (take_into-Moves on_back c obj 3 w h (and_left _ _ free))
                  | inr full' ↦
                      rw full'
                        (elim (Bool-cases
                          (is_null (w.equipment c).waist_worn && slot_is (equip_of obj) waist)) [
                            | inl free ↦
                                rw free (take_into-Moves on_waist c obj 4 w h (and_left _ _ free))
                            | inr full'' ↦ rw full'' (stay-Moves c obj 0 w)
                          ])
                ])
      ]

  hold_instead-Moves :
      (c obj : ℕ) (w : World) (r : World × ℤ)
      → IsConsistent w
      → Moves c obj w r
      → Moves c obj w (hold_instead equip_of c obj r)
  unfolding hold_instead Moves
  hold_instead-Moves c obj w (w', pos n) h moves = moves
  hold_instead-Moves c obj w (w', negsuc n) h same = rw same (hold-Moves c obj w h)

  -- So for `equip`.
  pub equip-Moves :
      (c obj : ℕ) (w : World) → IsConsistent w → Moves c obj w (equip equip_of c obj w)
  unfolding equip
  equip-Moves c obj w h =
      hold_instead-Moves c obj w (wear equip_of c obj w) h (wear-Moves c obj w h)
