-- ===== src/Zmp/Lookup.antt =====
-- What `zmp.check` answers against what a request of that name calls.
use sourcemud.Base.{
  ℕ, zero, suc, ◌≡◌, ◌≢◌, ◌↔◌, refl, inl, inr, true, false, none, some, List, [], ◌∷◌, arith,
}
use sourcemud.Base.Lists.{length}
use sourcemud.Base.Tests.{Bool-cases}
use sourcemud.Base.Text.{Text, text_eq, text_eq_iff}
use sourcemud.Strings.Chars.{case_eq, case_eq_n, str_eq}
use sourcemud.Zmp.{ZmpCommand, ends_with_byte, serves, lookup, matches, any_matches, match_pattern}

case_eq_same : (s : Text) → case_eq s s ≡ true
unfolding case_eq
case_eq_same [] = refl
case_eq_same (c ∷ s) = ground (arith, case_eq_same s)

case_eq_n_same : (n : ℕ) (s : Text) → case_eq_n n s s ≡ true
unfolding case_eq_n
case_eq_n_same zero s = refl
case_eq_n_same (suc n) [] = refl
case_eq_n_same (suc n) (c ∷ s) = ground (arith, case_eq_n_same n s)

str_eq_same : (n : ℕ) (s : Text) → str_eq s s n ≡ true
unfolding str_eq
str_eq_same zero s = case_eq_same s
str_eq_same (suc n) s = case_eq_n_same (suc n) s

-- Equal texts are equal in any case.
text_eq→str_eq : (s t : Text) (n : ℕ) → text_eq s t ≡ true → str_eq s t n ≡ true
text_eq→str_eq s t n h = let same = (text_eq_iff s t).0 h in rw (← same) (str_eq_same n s)

matches-serves :
    (command : ZmpCommand) (pattern : Text)
    → ends_with_byte b'.' pattern ≡ false
    → matches command pattern ≡ serves command pattern
unfolding matches serves
matches-serves command pattern plain =
    ground (arith, plain, text_eq→str_eq command.name pattern (length command.name))

any_matches-lookup :
    (commands : List ZmpCommand) (pattern : Text)
    → ends_with_byte b'.' pattern ≡ false
    → (any_matches commands pattern ≡ true) ↔ (lookup commands pattern ≢ none)
unfolding any_matches lookup
any_matches-lookup [] pattern plain = (λ h. cc, λ h. absurd (h refl))
any_matches-lookup (command ∷ commands) pattern plain =
    let same = matches-serves command pattern plain in
    let (there, back) = any_matches-lookup commands pattern plain in
    elim (Bool-cases (serves command pattern)) [
      | inl here ↦ (
        λ h found. let e : some command ≡ none = rw (here, lookup) at found in cc,
        λ h. rw (same, here) refl,
      )
      | inr other ↦ (
        λ h. rw (other, lookup) (there (rw (same, other) at h)),
        λ h. rw (same, other) (back (rw (other, lookup) at h)),
      )
    ]

-- For a name that is no package, `zmp.check` is answered with support exactly where a request of that
-- name would call a handler.
pub match_pattern-lookup :
    (commands : List ZmpCommand) (c : ℕ) (cs : Text)
    → ends_with_byte b'.' (c ∷ cs) ≡ false
    → (match_pattern commands (c ∷ cs) ≡ true) ↔ (lookup commands (c ∷ cs) ≢ none)
unfolding match_pattern
match_pattern-lookup commands c cs plain = any_matches-lookup commands (c ∷ cs) plain
