-- ===== src/Names/Examples.antt =====
-- Runs on names.
use sourcemud.Base.{◌≡◌, ◌≢◌, refl, true, false, ◌++◌, arith}
use sourcemud.Base.Text.{Text, codes}
use sourcemud.Strings.Chars.{case_eq_n, c_str, to_upper}
use sourcemud.Names.{
  plural, vowel, normal, indefinite, EntityName, get_full, set_full, is_upper, guess_article,
  print_name,
}
use sourcemud.Names.Full.{IsNamed, set_full-get_full, set_full_guess, print_name-get_full}

abbrev pants : EntityName
pants = record { text = codes "pants"; article = plural }

pants-IsNamed : IsNamed pants
pants-IsNamed = (ground arith, λ e. cc)

set_full-get_full_example : set_full (get_full pants) ≡ (pants, true)
set_full-get_full_example = set_full-get_full pants pants-IsNamed

apple_guessed :
    set_full (codes "apple") ≡ (record { text = codes "apple"; article = normal }, false)
unfolding set_full case_eq_n c_str is_upper guess_article to_upper
apple_guessed = refl

set_full_guess_example : (set_full (codes "apple")).0.article ≢ vowel
set_full_guess_example = set_full_guess (codes "apple") (rw apple_guessed refl)

print_name-get_full_example :
    (article : Text) × (print_name (codes "<") (codes ">") indefinite false pants
      ≡ article ++ (codes "<" ++ (pants.text ++ codes ">")))
    × (article ++ pants.text ≡ get_full pants)
print_name-get_full_example = print_name-get_full (codes "<") (codes ">") pants
