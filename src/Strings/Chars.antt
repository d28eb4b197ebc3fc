-- ===== src/Strings/Chars.antt =====
-- The tests and conversions of the C library's <ctype.h> on bytes, in the C locale, and the
-- comparison of texts that ignores case (`strEq` of src/common/strings.cc).
use sourcemud.Base.{
  ℕ, zero, suc, ◌+◌, ◌-◌, ◌≡◌, ◌↔◌, refl, Bool, true, false, ◌&&◌, ◌||◌, [], ◌∷◌, map, arith,
}
use sourcemud.Base.Lists.{take}
use sourcemud.Base.Tests.{leb, ◌==◌, if◌then◌else◌}
use sourcemud.Base.Text.{Text}

abbrev between : ℕ → ℕ → ℕ → Bool
between lo hi c = leb lo c && leb c hi

unfoldable pub is_digit : ℕ → Bool
is_digit c = between b'0' b'9' c

unfoldable pub is_alpha : ℕ → Bool
is_alpha c = between b'a' b'z' c || between b'A' b'Z' c

unfoldable pub is_alnum : ℕ → Bool
unfolding is_alpha is_digit
is_alnum c = is_alpha c || is_digit c

unfoldable pub is_space : ℕ → Bool
is_space c = between 9 13 c || c == 32

unfoldable pub to_lower : ℕ → ℕ
to_lower c = if between b'A' b'Z' c then c + 32 else c

unfoldable pub to_upper : ℕ → ℕ
to_upper c = if between b'a' b'z' c then c - 32 else c

-- `std::string(pointer)`: the bytes up to the first zero byte.
unfoldable pub c_str : Text → Text
c_str [] = []
c_str (c ∷ cs) = let rest = c_str cs in if c == 0 then [] else c ∷ rest

unfoldable pub is_print : ℕ → Bool
is_print c = between 32 126 c

-- `strcasecmp(a, b) == 0`
unfoldable pub case_eq : Text → Text → Bool
unfolding to_lower
case_eq [] [] = true
case_eq (x ∷ xs) (y ∷ ys) = to_lower x == to_lower y && case_eq xs ys
case_eq _ _ = false

-- `strncasecmp(a, b, n) == 0`: at most `n` characters, up to the end of either text.
unfoldable pub case_eq_n : ℕ → Text → Text → Bool
unfolding to_lower
case_eq_n zero xs ys = true
case_eq_n (suc n) [] [] = true
case_eq_n (suc n) (x ∷ xs) (y ∷ ys) = to_lower x == to_lower y && case_eq_n n xs ys
case_eq_n (suc n) _ _ = false

-- `strEq`; a length of 0 stands for the whole texts.
unfoldable pub str_eq : Text → Text → ℕ → Bool
unfolding case_eq case_eq_n
str_eq a b zero = case_eq a b
str_eq a b (suc n) = case_eq_n (suc n) a b

unfoldable pub strlower : Text → Text
unfolding to_lower
strlower = map to_lower

unfoldable pub strupper : Text → Text
unfolding to_upper
strupper = map to_upper

case_eq→strlower : (a b : Text) → case_eq a b ≡ true → map to_lower a ≡ map to_lower b
unfolding case_eq
case_eq→strlower [] [] h = refl
case_eq→strlower [] (y ∷ ys) h = cc
case_eq→strlower (x ∷ xs) [] h = cc
case_eq→strlower (x ∷ xs) (y ∷ ys) h = ground (arith, case_eq→strlower xs ys)

strlower→case_eq : (a b : Text) → map to_lower a ≡ map to_lower b → case_eq a b ≡ true
unfolding case_eq
strlower→case_eq [] [] h = refl
strlower→case_eq [] (y ∷ ys) h = cc
strlower→case_eq (x ∷ xs) [] h = cc
strlower→case_eq (x ∷ xs) (y ∷ ys) h = ground (arith, strlower→case_eq xs ys)

case_eq_n-take : (n : ℕ) (a b : Text) → case_eq_n n a b ≡ case_eq (take n a) (take n b)
unfolding case_eq case_eq_n
case_eq_n-take zero a b = refl
case_eq_n-take (suc n) [] [] = refl
case_eq_n-take (suc n) [] (y ∷ ys) = refl
case_eq_n-take (suc n) (x ∷ xs) [] = refl
case_eq_n-take (suc n) (x ∷ xs) (y ∷ ys) = rw (case_eq_n-take n xs ys)

-- How much of the texts a length compares.
abbrev pub compared : ℕ → Text → Text
compared zero a = a
compared (suc n) a = take (suc n) a

-- `strEq` holds exactly where the compared parts are equal in lower case.
pub str_eq-strlower :
    (a b : Text) (n : ℕ)
    → (str_eq a b n ≡ true) ↔ (strlower (compared n a) ≡ strlower (compared n b))
unfolding str_eq strlower
str_eq-strlower a b zero = (case_eq→strlower a b, strlower→case_eq a b)
str_eq-strlower a b (suc n) =
    rw (case_eq_n-take (suc n) a b)
      (case_eq→strlower (take (suc n) a) (take (suc n) b), strlower→case_eq _ _)
