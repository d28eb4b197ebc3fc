-- ===== src/Command/Order.antt =====
-- `CommandFormat::operator<`.
use sourcemud.Base.{◌≡◌, refl, Bool, true, false, not, Option, none, some, List, [], ◌∷◌, arith}
use sourcemud.Base.Int.{ℤ, leb_ℤ}
use sourcemud.Base.Lists.{length}
use sourcemud.Base.Options.{◌>>=◌}
use sourcemud.Base.Tests.{ltb, if◌then◌else◌}
use sourcemud.Base.Text.{Text}
use sourcemud.Command.Format.{NodeType, word, phrase, literal, Node}
use sourcemud.Strings.Chars.{case_eq, str_eq}

-- `operator <` of `std::string`, on unsigned bytes.
text_ltb : Text → Text → Bool
text_ltb [] [] = false
text_ltb [] (y ∷ ys) = true
text_ltb (x ∷ xs) [] = false
text_ltb (x ∷ xs) (y ∷ ys) =
    let rest = text_ltb xs ys in if ltb x y then true else if ltb y x then false else rest

-- Two nodes at the same place: a result, or `none` to go on.
compare_types : NodeType → NodeType → Text → Text → Option Bool
unfolding text_ltb
compare_types literal literal a b = if str_eq a b 0 then none else some (text_ltb a b)
compare_types literal _ a b = some true
compare_types word phrase a b = some true
compare_types word word a b = none
compare_types word literal a b = some false
compare_types phrase phrase a b = none
compare_types phrase _ a b = some false

-- The loop over both lists.
compare_nodes : List Node → List Node → Option Bool
unfolding compare_types
compare_nodes [] ms = none
compare_nodes (n ∷ ns) [] = none
compare_nodes (n ∷ ns) (m ∷ ms) =
    let rest = compare_nodes ns ms in
    elim (compare_types n.node_type m.node_type n.literal m.literal) [
      | some r ↦ some r
      | none ↦ rest
    ]

is_phrase : NodeType → Bool
is_phrase phrase = true
is_phrase _ = false

-- `nodes.back().type`; there is no last node of an empty format.
back_phrase : List Node → Option Bool
unfolding is_phrase
back_phrase [] = none
back_phrase (n ∷ []) = some (is_phrase n.node_type)
back_phrase (n ∷ m ∷ ns) = back_phrase (m ∷ ns)

-- Behind the loop: a format that ends in a phrase comes behind its extensions, any other before them.
compare_sizes : List Node → List Node → Option Bool
unfolding back_phrase
compare_sizes ns ms =
    if ltb (length ms) (length ns)
    then back_phrase ms
    else if ltb (length ns) (length ms)
    then back_phrase ns >>= (λ p. some (not p))
    else some false

compare_formats : List Node → List Node → Option Bool
unfolding compare_nodes compare_sizes
compare_formats ns ms = elim (compare_nodes ns ms) [ some r ↦ some r | none ↦ compare_sizes ns ms ]

-- `none` where the last node of an empty format is read.
unfoldable pub format_less : ℤ → List Node → ℤ → List Node → Option Bool
unfolding compare_formats
format_less p ns q ms =
    if leb_ℤ q p then (if leb_ℤ p q then compare_formats ns ms else some false) else some true

text_ltb_flip : (a b : Text) → text_ltb a b ≡ true → text_ltb b a ≡ false
unfolding text_ltb
text_ltb_flip [] [] h = refl
text_ltb_flip [] (y ∷ ys) h = refl
text_ltb_flip (x ∷ xs) [] h = cc
text_ltb_flip (x ∷ xs) (y ∷ ys) h = ground (arith, text_ltb_flip xs ys)

case_eq_sym : (a b : Text) → case_eq a b ≡ case_eq b a
unfolding case_eq
case_eq_sym [] [] = refl
case_eq_sym [] (y ∷ ys) = refl
case_eq_sym (x ∷ xs) [] = refl
case_eq_sym (x ∷ xs) (y ∷ ys) = ground (arith, case_eq_sym xs ys)

str_eq_sym : (a b : Text) → str_eq a b 0 ≡ str_eq b a 0
unfolding str_eq
str_eq_sym a b = case_eq_sym a b

-- The other way round a comparison is the other way round too.
abbrev Flips : Option Bool → Option Bool → Type 0
Flips none o = o ≡ none
Flips (some true) o = o ≡ some false
Flips (some false) o = Unit {0}

compare_types_flip :
    (t u : NodeType) (a b : Text) → Flips (compare_types t u a b) (compare_types u t b a)
unfolding compare_types
compare_types_flip literal literal a b = ground (arith, str_eq_sym a b, text_ltb_flip a b)
compare_types_flip literal word a b = refl
compare_types_flip literal phrase a b = refl
compare_types_flip word phrase a b = refl
compare_types_flip word word a b = refl
compare_types_flip word literal a b = tt
compare_types_flip phrase phrase a b = refl
compare_types_flip phrase word a b = tt
compare_types_flip phrase literal a b = tt

compare_nodes_flip : (ns ms : List Node) → Flips (compare_nodes ns ms) (compare_nodes ms ns)
unfolding compare_nodes
compare_nodes_flip [] [] = refl
compare_nodes_flip [] (m ∷ ms) = refl
compare_nodes_flip (n ∷ ns) [] = refl
compare_nodes_flip (n ∷ ns) (m ∷ ms) = ground (
  arith,
  compare_nodes_flip ns ms,
  compare_types_flip n.node_type m.node_type n.literal m.literal,
)

compare_sizes_flip :
    (ns ms : List Node) → compare_sizes ns ms ≡ some true → compare_sizes ms ns ≡ some false
unfolding compare_sizes
compare_sizes_flip ns ms h = ground arith

compare_formats_flip :
    (ns ms : List Node) → compare_formats ns ms ≡ some true → compare_formats ms ns ≡ some false
unfolding compare_formats
compare_formats_flip ns ms h = ground (arith, compare_nodes_flip ns ms, compare_sizes_flip ns ms)

-- Of two formats never each comes before the other, as sorting needs it: by their priorities, their nodes
-- from the left, and their lengths.
pub format_less_flip :
    (p q : ℤ) (ns ms : List Node)
    → format_less p ns q ms ≡ some true
    → format_less q ms p ns ≡ some false
unfolding format_less
format_less_flip p q ns ms h = ground (arith, compare_formats_flip ns ms)
