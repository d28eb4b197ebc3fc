-- ===== src/Strings/Examples.antt =====
-- Runs of the text utilities.
use sourcemud.Base.{◌≡◌, ◌↔◌, refl, true, [], ◌∷◌, arith}
use sourcemud.Base.Text.{codes}
use sourcemud.Strings.Chars.{is_space, str_eq}
use sourcemud.Strings.Check.{str_is_true}
use sourcemud.Strings.Phrase.Words.{Picks, phrase_match_iff}
use sourcemud.Strings.Phrase.{phrase_match}
use sourcemud.Strings.Split.{implode}
use sourcemud.Strings.Strip.{strip}

-- A single character is lost.
strip_single : strip (codes " x ") ≡ []
unfolding strip is_space
strip_single = refl

yes_is_true : str_is_true (codes "Yes") ≡ true
unfolding str_is_true str_eq
yes_is_true = refl

phrase_match_iff_example :
    (phrase_match
        (implode (codes "red" ∷ codes "iron" ∷ codes "key" ∷ []) b' ')
        (implode (codes "RE" ∷ codes "k" ∷ []) b' ')
      ≡ true)
    ↔ Picks (codes "RE" ∷ codes "k" ∷ []) (codes "red" ∷ codes "iron" ∷ codes "key" ∷ [])
phrase_match_iff_example =
    phrase_match_iff (codes "red") (codes "RE") (codes "iron" ∷ codes "key" ∷ []) (codes "k" ∷ [])
      (unfold is_space in ground arith) (unfold is_space in ground arith) (omega arith)
