-- ===== src/Equipment/Slots.antt =====
-- How src/mud/body.cc looks through the slots: by number, and by a name and a count. The numbers are
-- 32-bit and unsigned; `none` is NULL.
use sourcemud.Base.{ℕ, ◌+◌, ◌%◌, ◌^◌, ◌-◌, Bool, Option, none, some}
use sourcemud.Base.Tests.{◌==◌, if◌then◌else◌}
use sourcemud.Equipment.{Equipment, is_null}

-- `--i`, `++i` and `i -= j`
abbrev pub decrement : ℕ → ℕ
decrement i = (i + (2 ^ 32 - 1)) % 2 ^ 32

abbrev pub increment : ℕ → ℕ
increment i = (i + 1) % 2 ^ 32

abbrev pub subtract : ℕ → ℕ → ℕ
subtract i j = (i + (2 ^ 32 - j)) % 2 ^ 32

unfoldable pub free_hands : Equipment → ℕ
free_hands e = (if is_null e.right_held then 1 else 0) + (if is_null e.left_held then 1 else 0)

-- One slot of `getHeldAt` and `getWornAt`, and what follows it.
abbrev pub at_slot : Option ℕ → ℕ → (ℕ → Option ℕ) → Option ℕ
at_slot none i rest = rest i
at_slot (some p) i rest = if i == 0 then some p else rest (decrement i)

unfoldable pub get_held_at : Equipment → ℕ → Option ℕ
get_held_at e i = at_slot e.right_held i (λ i. at_slot e.left_held i (λ i. none))

unfoldable pub get_worn_at : Equipment → ℕ → Option ℕ
get_worn_at e i =
    at_slot e.body_worn i (λ i. at_slot e.back_worn i (λ i. at_slot e.waist_worn i (λ i. none)))

abbrev pub past_slot : Option ℕ → ℕ → ℕ
past_slot none i = i
past_slot (some p) i = decrement i

abbrev pub or_else : Option ℕ → Option ℕ → Option ℕ
or_else none o = o
or_else (some p) o = some p

unfoldable pub get_equip_at : Equipment → ℕ → Option ℕ
unfolding get_held_at get_worn_at
get_equip_at e i =
    or_else (get_held_at e i) (get_worn_at e (past_slot e.left_held (past_slot e.right_held i)))

-- Whether an object has the name is a parameter. The second number of a result is what the pointer
-- `matches` gets.
module _ (name_match : ℕ → Bool) where
  abbrev pub find_slot : Option ℕ → ℕ → ℕ → (ℕ → ℕ → Option ℕ × ℕ) → Option ℕ × ℕ
  find_slot none count matches rest = rest count matches
  find_slot (some p) count matches rest =
      if name_match p
      then (if decrement count == 0
          then (some p, increment matches)
          else rest (decrement count) (increment matches))
      else rest count matches

  unfoldable pub find_worn : Equipment → ℕ → Option ℕ × ℕ
  find_worn e count = find_slot e.body_worn count 0 (λ count matches.
      find_slot e.back_worn count matches
        (λ count matches. find_slot e.waist_worn count matches (λ count matches. (none, matches))))

  unfoldable pub find_held : Equipment → ℕ → Option ℕ × ℕ
  find_held e count =
      find_slot e.right_held count 0
        (λ count matches. find_slot e.left_held count matches (λ count matches. (none, matches)))

  -- `findEquip` after `findHeld`.
  unfoldable pub find_after_held : Equipment → ℕ → Option ℕ × ℕ → Option ℕ × ℕ
  unfolding find_worn
  find_after_held e count (some p, held) = (some p, held)
  find_after_held e count (none, held) =
      let count' = subtract count held in
      if count' == 0
      then (none, held)
      else (let worn = find_worn e count' in (worn.0, (worn.1 + held) % 2 ^ 32))

  unfoldable pub find_equip : Equipment → ℕ → Option ℕ × ℕ
  unfolding find_held find_after_held
  find_equip e count = find_after_held e count (find_held e count)
