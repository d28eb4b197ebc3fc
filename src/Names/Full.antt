-- ===== src/Names/Full.antt =====
-- `setFull`, `getFull` and the printing of names of src/mud/name.cc.
use sourcemud.Base.{ℕ, ◌≡◌, ◌≢◌, refl, ap, true, false, [], ◌∷◌, ◌++◌, arith}
use sourcemud.Base.Text.{Text, codes}
use sourcemud.Strings.Chars.{c_str, case_eq_n, to_upper}
use sourcemud.Strings.Split.{Lacks}
use sourcemud.Names.{
  ArticleClass, normal, proper, unique, plural, vowel, indefinite, EntityName, get_full, is_upper,
  guess_article, set_full, print_name,
}

c_str-Lacks : (t : Text) → Lacks 0 t → c_str t ≡ t
unfolding c_str
c_str-Lacks [] h = refl
c_str-Lacks (c ∷ cs) h = ground (arith, c_str-Lacks cs h.1)

-- A proper name begins with a capital letter.
abbrev pub IsProper : Text → Type 0
IsProper [] = ⊥
IsProper (c ∷ cs) = is_upper c ≡ true

-- A name that its full form shows: no zero byte, and a capital letter in front if it is proper.
abbrev pub IsNamed : EntityName → Type 0
IsNamed n = Lacks 0 n.text × (n.article ≡ proper → IsProper n.text)

set_full-proper :
    (t : Text) → IsProper t → set_full t ≡ (record { text = t; article = proper }, true)
unfolding set_full
set_full-proper [] h = elim h [ ]
set_full-proper (c ∷ cs) h = rw (set_full, h) refl

set_full_at :
    (a : ArticleClass) (t : Text)
    → Lacks 0 t
    → (a ≡ proper → IsProper t)
    → set_full (get_full (record { text = t; article = a }))
      ≡ (record { text = t; article = a }, true)
unfolding get_full set_full case_eq_n c_str
set_full_at proper t h k = set_full-proper t (k refl)
set_full_at normal t h k = ap (λ u. (record { text = u; article = normal }, true)) (c_str-Lacks t h)
set_full_at unique t h k = ap (λ u. (record { text = u; article = unique }, true)) (c_str-Lacks t h)
set_full_at plural t h k = ap (λ u. (record { text = u; article = plural }, true)) (c_str-Lacks t h)
set_full_at vowel t h k = ap (λ u. (record { text = u; article = vowel }, true)) (c_str-Lacks t h)

-- The full form of a name without a zero byte, which begins with a capital letter if it is proper, is
-- taken apart into the same name, without a guess.
pub set_full-get_full : (n : EntityName) → IsNamed n → set_full (get_full n) ≡ (n, true)
set_full-get_full n h = set_full_at n.article n.text h.0 h.1

guess_article-ne-vowel : (c : ℕ) (cs : Text) → guess_article c cs ≢ vowel
unfolding guess_article to_upper
guess_article-ne-vowel c cs = ground arith

-- Where the article is a guess, it is never that of a vowel, whatever the name begins with.
pub set_full_guess : (s : Text) → (set_full s).1 ≡ false → (set_full s).0.article ≢ vowel
unfolding set_full
set_full_guess [] h = λ e. cc
set_full_guess (c ∷ cs) h = ground (arith, guess_article-ne-vowel c cs)

print_name_at :
    (color plain t : Text) (a : ArticleClass)
    → (article : Text) × (print_name color plain indefinite false (record { text = t; article = a })
        ≡ article ++ (color ++ (t ++ plain)))
      × (article ++ t ≡ get_full (record { text = t; article = a }))
unfolding print_name get_full
print_name_at color plain t proper = ([], refl, refl)
print_name_at color plain t normal = (codes "a ", refl, refl)
print_name_at color plain t unique = (codes "the ", refl, refl)
print_name_at color plain t plural = (codes "some ", refl, refl)
print_name_at color plain t vowel = (codes "an ", refl, refl)

-- A name that is printed with its indefinite article, and not in capitals, is its full form, with the
-- color behind the article and the normal color at the end.
pub print_name-get_full :
    (color plain : Text) (n : EntityName)
    → (article : Text) × (print_name color plain indefinite false n
        ≡ article ++ (color ++ (n.text ++ plain)))
      × (article ++ n.text ≡ get_full n)
print_name-get_full color plain n = print_name_at color plain n.text n.article
