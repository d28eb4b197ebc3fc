-- ===== src/Equipment/History.antt =====
-- The operations of src/mud/body.cc one after another, with `setOwner` and `destroy` of objects.
use sourcemud.Base.{ℕ, inl, inr, Bool, Option, none, some, List, [], ◌∷◌, arith}
use sourcemud.Base.Tests.{Bool-cases}
use sourcemud.Equipment.{
  World, EquipSlot, Place, right_hand, left_hand, on_body, on_back, on_waist, get_at, put_at,
  set_owner, release, hold, wear, equip, release_object, swap_hands, destroy, drop_found, drop_slot,
  drop_held, drop_all,
}
use sourcemud.Equipment.Owners.{
  slots, IsConsistent, slots-release, slots-put_at, release_from-slots, release_from-owner,
  set_owner-IsConsistent, set_slots-IsConsistent,
}
use sourcemud.Equipment.Taking.{Moves-IsConsistent, hold-Moves, wear-Moves, equip-Moves}

pub data Op : Type 0 where
  holding wearing equipping releasing : ℕ → ℕ → Op
  giving : ℕ → ℕ → Op
  swapping destroying : ℕ → Op
  dropping_held dropping_all : ℕ → ℕ → Op

release_object-IsConsistent :
    (c obj : ℕ) (w : World) → IsConsistent w → IsConsistent (release_object c obj w)
unfolding release_object
release_object-IsConsistent c obj w h =
    set_slots-IsConsistent c (release obj) w h
      (λ p. ground (arith, slots-release obj p (w.equipment c)))

swap_hands-IsConsistent : (c : ℕ) (w : World) → IsConsistent w → IsConsistent (swap_hands c w)
unfolding swap_hands
swap_hands-IsConsistent c w h =
    set_slots-IsConsistent c (λ e. record e { right_held = e.left_held; left_held = e.right_held })
      w h (λ p. unfold slots in omega arith)

destroy-IsConsistent : (obj : ℕ) (w : World) → IsConsistent w → IsConsistent (destroy obj w)
unfolding destroy
destroy-IsConsistent obj w h d p = ground (
  arith,
  release_from-slots (w.owner obj) obj w (λ x. h x obj) d p,
  release_from-owner (w.owner obj) obj w,
  h d p,
)

module _ (is_dropable : ℕ → Bool) where
  drop_found-IsConsistent :
      (c room : ℕ) (place : Place) (found : Option ℕ) (w : World)
      → IsConsistent w
      → IsConsistent (drop_found is_dropable c room place found w)
  unfolding drop_found
  drop_found-IsConsistent c room place none w h = h
  drop_found-IsConsistent c room place (some obj) w h = elim (Bool-cases (is_dropable obj)) [
    | inr stuck ↦ rw stuck h
    | inl free ↦ rw free (
        set_slots-IsConsistent c (put_at place none) (set_owner room obj w)
          (set_owner-IsConsistent room obj w h)
          (λ p. omega (arith, slots-put_at place none p ((set_owner room obj w).equipment c))))
  ]

  drop_slot-IsConsistent :
      (c room : ℕ) (place : Place) (w : World)
      → IsConsistent w
      → IsConsistent (drop_slot is_dropable c room place w)
  unfolding drop_slot
  drop_slot-IsConsistent c room place w h =
      drop_found-IsConsistent c room place (get_at place (w.equipment c)) w h

  drop_held-IsConsistent :
      (c room : ℕ) (w : World) → IsConsistent w → IsConsistent (drop_held is_dropable c room w)
  unfolding drop_held
  drop_held-IsConsistent c room w h =
      drop_slot-IsConsistent c room left_hand _ (drop_slot-IsConsistent c room right_hand w h)

  drop_all-IsConsistent :
      (c room : ℕ) (w : World) → IsConsistent w → IsConsistent (drop_all is_dropable c room w)
  unfolding drop_all
  drop_all-IsConsistent c room w h = drop_slot-IsConsistent c room on_waist _ (
      drop_slot-IsConsistent c room on_back _
        (drop_slot-IsConsistent c room on_body _ (drop_held-IsConsistent c room w h)))

module _ (equip_of : ℕ → EquipSlot) (is_dropable : ℕ → Bool) where
  unfoldable pub step : Op → World → World
  unfolding hold wear equip release_object set_owner destroy swap_hands drop_held drop_all
  step (holding c obj) w = (hold c obj w).0
  step (wearing c obj) w = (wear equip_of c obj w).0
  step (equipping c obj) w = (equip equip_of c obj w).0
  step (releasing c obj) w = release_object c obj w
  step (giving c obj) w = set_owner c obj w
  step (destroying obj) w = destroy obj w
  step (swapping c) w = swap_hands c w
  step (dropping_held c room) w = drop_held is_dropable c room w
  step (dropping_all c room) w = drop_all is_dropable c room w

  unfoldable pub run_all : List Op → World → World
  unfolding step
  run_all [] w = w
  run_all (op ∷ ops) w = run_all ops (step op w)

  step-IsConsistent : (op : Op) (w : World) → IsConsistent w → IsConsistent (step op w)
  unfolding step
  step-IsConsistent (holding c obj) w h = Moves-IsConsistent c obj w _ h (hold-Moves c obj w h)
  step-IsConsistent (wearing c obj) w h =
      Moves-IsConsistent c obj w _ h (wear-Moves equip_of c obj w h)
  step-IsConsistent (equipping c obj) w h =
      Moves-IsConsistent c obj w _ h (equip-Moves equip_of c obj w h)
  step-IsConsistent (releasing c obj) w h = release_object-IsConsistent c obj w h
  step-IsConsistent (giving c obj) w h = set_owner-IsConsistent c obj w h
  step-IsConsistent (destroying obj) w h = destroy-IsConsistent obj w h
  step-IsConsistent (swapping c) w h = swap_hands-IsConsistent c w h
  step-IsConsistent (dropping_held c room) w h = drop_held-IsConsistent is_dropable c room w h
  step-IsConsistent (dropping_all c room) w h = drop_all-IsConsistent is_dropable c room w h

  -- In a world in which every object is in one slot at most, and in one of its owner's, this stays so
  -- however creatures hold, wear, equip, release, swap and drop objects, and however objects get other
  -- owners or are destroyed.
  pub run_all-IsConsistent :
      (ops : List Op) (w : World) → IsConsistent w → IsConsistent (run_all ops w)
  unfolding run_all
  run_all-IsConsistent [] w h = h
  run_all-IsConsistent (op ∷ ops) w h =
      run_all-IsConsistent ops (step op w) (step-IsConsistent op w h)
