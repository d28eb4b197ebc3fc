-- ===== src/Names.antt =====
-- EntityName and the printing of names of src/mud/name.cc and include/mud/name.h.
use sourcemud.Base.{ℕ, zero, suc, ◌-◌, Bool, true, false, ◌&&◌, ◌||◌, List, [], ◌∷◌, ◌++◌}
use sourcemud.Base.Lists.{drop}
use sourcemud.Base.Tests.{◌==◌, leb, if◌then◌else◌}
use sourcemud.Base.Text.{Text, codes}
use sourcemud.Strings.Chars.{c_str, case_eq_n, str_eq, to_upper}
pub mod Full
pub mod Examples

-- `EntityArticleClass`
pub data ArticleClass : Type 0 where
  normal proper unique plural vowel : ArticleClass

-- `EntityArticleUsage`
pub data ArticleUsage : Type 0 where
  no_article definite indefinite your my our his her its their : ArticleUsage

pub record EntityName : Type 0 where
  pub text : Text
  pub article : ArticleClass

abbrev pub class_names : List (Text × ArticleClass)
class_names =
    (codes "normal", normal)
    ∷ (codes "proper", proper)
    ∷ (codes "unique", unique)
    ∷ (codes "plural", plural)
    ∷ (codes "vowel", vowel)
    ∷ []

-- `EntityArticleClass::lookup`
unfoldable pub lookup_class : Text → List (Text × ArticleClass) → ArticleClass
unfolding str_eq
lookup_class text [] = normal
lookup_class text (n ∷ ns) = if str_eq text n.0 0 then n.1 else lookup_class text ns

-- `getFull`
unfoldable pub get_full : EntityName → Text
get_full n = elim n.article [
  | normal ↦ codes "a " ++ n.text
  | proper ↦ n.text
  | unique ↦ codes "the " ++ n.text
  | plural ↦ codes "some " ++ n.text
  | vowel ↦ codes "an " ++ n.text
]

unfoldable pub is_upper : ℕ → Bool
is_upper c = leb b'A' c && leb c b'Z'

unfoldable pub last_char : ℕ → Text → ℕ
last_char c [] = c
last_char c (d ∷ ds) = last_char d ds

-- The article of a text that begins with a character and shows none.
unfoldable pub guess_article : ℕ → Text → ArticleClass
unfolding last_char to_upper
guess_article c cs =
    if last_char c cs == b's'
    then plural
    else if to_upper c == b'a'
        || (to_upper c == b'e'
            || (to_upper c == b'i' || (to_upper c == b'o' || to_upper c == b'u')))
    then vowel
    else normal

abbrev pub starts_with : Text → ℕ → Text → Bool
starts_with article n s = case_eq_n n article (c_str s)

-- `setFull`; false where the article is a guess.
unfoldable pub set_full : Text → EntityName × Bool
unfolding is_upper guess_article
set_full [] = (record { text = []; article = normal }, false)
set_full (c ∷ cs) =
    if is_upper c
    then (record { text = c ∷ cs; article = proper }, true)
    else if starts_with (codes "the ") 4 (c ∷ cs)
    then (record { text = c_str (drop 4 (c ∷ cs)); article = unique }, true)
    else if starts_with (codes "some ") 5 (c ∷ cs)
    then (record { text = c_str (drop 5 (c ∷ cs)); article = plural }, true)
    else if starts_with (codes "an ") 3 (c ∷ cs)
    then (record { text = c_str (drop 3 (c ∷ cs)); article = vowel }, true)
    else if starts_with (codes "a ") 2 (c ∷ cs)
    then (record { text = c_str (drop 2 (c ∷ cs)); article = normal }, true)
    else (record { text = c ∷ cs; article = guess_article c cs }, false)

abbrev pub either : Bool → Text → Text → Text
either capitalize upper lower = if capitalize then upper else lower

-- The article by the class alone.
unfoldable pub class_word : ArticleClass → Bool → Text
class_word plural capitalize = either capitalize (codes "Some ") (codes "some ")
class_word vowel capitalize = either capitalize (codes "An ") (codes "an ")
class_word unique capitalize = either capitalize (codes "The ") (codes "the ")
class_word _ capitalize = either capitalize (codes "A ") (codes "a ")

-- The article in front of a name that is not proper; a unique name always has the definite one.
unfoldable pub article_word : ArticleUsage → ArticleClass → Bool → Text
unfolding class_word
article_word definite class capitalize = either capitalize (codes "The ") (codes "the ")
article_word _ unique capitalize = either capitalize (codes "The ") (codes "the ")
article_word your class capitalize = either capitalize (codes "Your ") (codes "your ")
article_word my class capitalize = either capitalize (codes "My ") (codes "my ")
article_word our class capitalize = either capitalize (codes "Our ") (codes "our ")
article_word his class capitalize = either capitalize (codes "His ") (codes "his ")
article_word her class capitalize = either capitalize (codes "Her ") (codes "her ")
article_word its class capitalize = either capitalize (codes "Its ") (codes "its ")
article_word their class capitalize = either capitalize (codes "Their ") (codes "their ")
article_word _ class capitalize = class_word class capitalize

-- A proper name.
unfoldable pub proper_text : Bool → Text → Text
unfolding to_upper
proper_text true (c ∷ cs) = to_upper c ∷ c_str cs
proper_text _ text = text

abbrev pub is_bare : ArticleUsage → ArticleClass → Bool
is_bare no_article class = true
is_bare _ proper = true
is_bare _ _ = false

-- What a StreamName writes, between the color of the entity and that of normal text.
unfoldable pub print_name : Text → Text → ArticleUsage → Bool → EntityName → Text
unfolding article_word proper_text
print_name color plain usage capitalize n =
    if is_bare usage n.article
    then color ++ (proper_text capitalize n.text ++ plain)
    else article_word usage n.article capitalize ++ (color ++ (n.text ++ plain))
