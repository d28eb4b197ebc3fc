-- ===== src/Equipment/Examples.antt =====
-- A sword and a cloak in two creatures' hands.
use sourcemud.Base.{ℕ, ◌≡◌, refl, Bool, none, some, List, [], ◌∷◌, ◌++◌, arith}
use sourcemud.Base.Tests.{◌==◌, if◌then◌else◌}
use sourcemud.Equipment.{Equipment, World, EquipSlot, back, no_slot, equip}
use sourcemud.Equipment.Slots.{find_equip}
use sourcemud.Equipment.Owners.{slots, IsConsistent}
use sourcemud.Equipment.Equipping.{Equips, equip-Equips}
use sourcemud.Equipment.History.{
  Op, holding, equipping, giving, swapping, destroying, dropping_all, run_all, run_all-IsConsistent,
}
use sourcemud.Equipment.Search.{present, held_list, worn_list, named, pick, find_equip-named}

abbrev nothing : Equipment
nothing = record {
  right_held = none;
  left_held = none;
  body_worn = none;
  back_worn = none;
  waist_worn = none;
}

abbrev start : World
start = record { owner = λ p. none; equipment = λ c. nothing }

start-IsConsistent : IsConsistent start
start-IsConsistent c p = unfold slots in omega arith

-- Object 8 is a cloak, and cannot be dropped.
abbrev cloak_equip : ℕ → EquipSlot
cloak_equip p = if p == 8 then back else no_slot

abbrev is_sword : ℕ → Bool
is_sword p = p == 5

abbrev history : List Op
history =
    holding 1 5
    ∷ holding 2 5
    ∷ equipping 2 8
    ∷ swapping 2
    ∷ dropping_all 2 9
    ∷ giving 1 8
    ∷ destroying 8
    ∷ []

run_all-IsConsistent_example : IsConsistent (run_all cloak_equip is_sword history start)
run_all-IsConsistent_example =
    run_all-IsConsistent cloak_equip is_sword history start start-IsConsistent

abbrev armed : World
armed = run_all cloak_equip is_sword (holding 1 5 ∷ holding 1 8 ∷ []) start

-- The cloak moves from the creature's hand to its back.
equip-Equips_example : Equips cloak_equip 1 8 armed (equip cloak_equip 1 8 armed)
equip-Equips_example = equip-Equips cloak_equip 1 8 armed (
    run_all-IsConsistent cloak_equip is_sword (holding 1 5 ∷ holding 1 8 ∷ []) start
      start-IsConsistent)

abbrev dressed : Equipment
dressed = record {
  right_held = none;
  left_held = some 5;
  body_worn = none;
  back_worn = some 8;
  waist_worn = some 5;
}

find_equip-named_example :
    find_equip is_sword dressed 2
    ≡ pick is_sword (named is_sword (present (held_list dressed ++ worn_list dressed))) 2
find_equip-named_example = find_equip-named is_sword dressed 2 (omega arith) (omega arith)

-- The second sword is at the waist.
found : find_equip is_sword dressed 2 ≡ (some 5, 2)
unfolding find_equip
found = refl
