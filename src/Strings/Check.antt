-- ===== src/Strings/Check.antt =====
-- `strIsValidId`, `strIsEmail`, `strIsTrue` and `strIsFalse` of src/common/strings.cc.
use sourcemud.Base.{ℕ, ◌≡◌, ◌⊎◌, refl, Bool, true, false, not, ◌&&◌, ◌||◌, inl, inr, [], ◌∷◌, arith}
use sourcemud.Base.Int.{is_zero}
use sourcemud.Base.Tests.{leb, ◌==◌, if◌then◌else◌, Bool-cases}
use sourcemud.Base.Text.{Text, codes, text_eq, text_eq_iff}
use sourcemud.Strings.Chars.{is_alpha, is_alnum, to_lower, str_eq, strlower, str_eq-strlower}
use sourcemud.Strings.Numbers.{tolong, str_is_number}

id_rest : Text → Bool
unfolding is_alnum
id_rest [] = true
id_rest (c ∷ cs) = (is_alnum c || c == b'_' || c == b'.' || c == b'-') && id_rest cs

pub str_is_valid_id : Text → Bool
unfolding id_rest is_alpha
str_is_valid_id [] = false
str_is_valid_id (c ∷ cs) = is_alpha c && id_rest cs

email_char : ℕ → Bool
unfolding is_alpha
email_char c = is_alpha c || c == b'-' || c == b'_' || c == b'.'

-- What stands behind the characters that `strspn` passes.
behind_span : Text → Text
unfolding email_char
behind_span [] = []
behind_span (c ∷ cs) = let rest = behind_span cs in if email_char c then rest else c ∷ cs

has_char : ℕ → Text → Bool
has_char c [] = false
has_char c (x ∷ xs) = x == c || has_char c xs

-- The part behind the `@`: at least one good character in front, and a dot somewhere.
email_host : Text → Bool
unfolding email_char has_char
email_host [] = false
email_host (c ∷ cs) = email_char c && has_char b'.' (c ∷ cs)

at_host : Text → Bool
unfolding email_host
at_host [] = false
at_host (c ∷ cs) = c == b'@' && email_host cs

pub str_is_email : Text → Bool
unfolding behind_span at_host
str_is_email [] = false
str_is_email (c ∷ cs) = email_char c && at_host (behind_span (c ∷ cs))

unfoldable pub str_is_true : Text → Bool
str_is_true s =
    str_eq s (codes "true") 0
    || str_eq s (codes "yes") 0
    || str_eq s (codes "on") 0
    || str_is_number s && not (is_zero (tolong s))

pub str_is_false : Text → Bool
str_is_false s =
    str_eq s (codes "false") 0
    || str_eq s (codes "no") 0
    || str_eq s (codes "off") 0
    || text_eq s (codes "0")

-- The text in lower case, from a word that it equals.
word_of : (s w : Text) → str_eq s w 0 ≡ true → strlower s ≡ strlower w
word_of s w h = (str_eq-strlower s w 0).0 h

or_cases : (a b : Bool) → a || b ≡ true → (a ≡ true) ⊎ (b ≡ true)
or_cases true b h = inl refl
or_cases false b h = inr h

-- The words for false, in lower case.
false_words :
    (s : Text)
    → str_is_false s ≡ true
    → (strlower s ≡ codes "false")
      ⊎ (strlower s ≡ codes "no")
      ⊎ (strlower s ≡ codes "off")
      ⊎ (s ≡ codes "0")
unfolding str_is_false strlower
false_words s h = ground (
  arith,
  word_of s (codes "false"),
  word_of s (codes "no"),
  word_of s (codes "off"),
  text_eq_iff s (codes "0"),
)

true_words :
    (s : Text)
    → str_is_true s ≡ true
    → (strlower s ≡ codes "true")
      ⊎ (strlower s ≡ codes "yes")
      ⊎ (strlower s ≡ codes "on")
      ⊎ (str_is_number s && not (is_zero (tolong s)) ≡ true)
unfolding str_is_true strlower
true_words s h =
    ground (arith, word_of s (codes "true"), word_of s (codes "yes"), word_of s (codes "on"))

letter_start :
    (s w : Text) (c : ℕ) → strlower s ≡ c ∷ w → leb b'a' c ≡ true → str_is_number s ≡ false
unfolding strlower str_is_number to_lower
letter_start [] w c e h = refl
letter_start (x ∷ xs) w c e h = ground arith

zero_not_true : (s : Text) → s ≡ codes "0" → str_is_true s ≡ false
unfolding str_is_true str_eq str_is_number tolong
zero_not_true s e = rw e

word_not_true :
    (s w : Text) (c : ℕ)
    → str_is_true s ≡ true
    → strlower s ≡ c ∷ w
    → leb b'a' c ≡ true
    → (c ∷ w ≡ codes "true") ⊎ (c ∷ w ≡ codes "yes") ⊎ (c ∷ w ≡ codes "on")
word_not_true s w c t e h = ground (arith, true_words s t, letter_start s w c e h)

-- No text is both a true and a false value.
pub str_is_true-str_is_false : (s : Text) → str_is_true s ≡ true → str_is_false s ≡ false
str_is_true-str_is_false s t = elim (Bool-cases (str_is_false s)) [
  | inr h ↦ h
  | inl f ↦ absurd (elim (false_words s f) [
    | inl e ↦ ground (arith, word_not_true s (codes "alse") b'f' t e)
    | inr (inl e) ↦ ground (arith, word_not_true s (codes "o") b'n' t e)
    | inr (inr (inl e)) ↦ ground (arith, word_not_true s (codes "ff") b'o' t e)
    | inr (inr (inr e)) ↦ ground (arith, zero_not_true s e)
  ])
]
