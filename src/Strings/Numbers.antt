-- ===== src/Strings/Numbers.antt =====
-- `getNumSuffix`, `tostr`, `tolong` and `strIsNumber` of src/common/strings.cc. A `long` is an
-- integer of 64 bits.
use Prim.Native.Nat.{min}
use sourcemud.Base.{
  ℕ, zero, suc, ◌+◌, ◌-◌, ◌*◌, ◌/◌, ◌%◌, ◌^◌, ◌<◌, ◌≡◌, ◌≢◌, refl, ap, ◌∙◌, Bool, true, false, ◌&&◌,
  ◌||◌, inl, inr, [], ◌∷◌, ◌++◌, arith,
}
use sourcemud.Base.Int.{ℤ, pos, negsuc}
use sourcemud.Base.Lists.{All, All-append}
use sourcemud.Base.Tests.{ltb, leb, ◌==◌, if◌then◌else◌, Bool-cases}
use sourcemud.Base.Text.{Text, codes}
use sourcemud.Strings.Chars.{is_digit, is_space}

abbrev pub last_digit_suffix : ℕ → Text
last_digit_suffix m =
    if m == 1
    then codes "st"
    else if m == 2
    then codes "nd"
    else if m == 3
    then codes "rd"
    else codes "th"

pub get_num_suffix : ℕ → Text
get_num_suffix num =
    if num == 11 || num == 12 || num == 13 then codes "th" else last_digit_suffix (num % 10)

-- The English ordinal: "th" after 11, 12 and 13 in every hundred.
abbrev pub ordinal_suffix : ℕ → Text
ordinal_suffix n =
    if leb 11 (n % 100) && leb (n % 100) 13 then codes "th" else last_digit_suffix (n % 10)

-- The suffix is that of the English ordinal, except that beyond 110 the last digit alone decides.
pub get_num_suffix-ordinal_suffix :
    (n : ℕ)
    → get_num_suffix n ≡ (if ltb 110 n then last_digit_suffix (n % 10) else ordinal_suffix n)
unfolding get_num_suffix
get_num_suffix-ordinal_suffix n = ground arith

-- The digits of a number, with fuel.
digits : ℕ → ℕ → Text
digits zero n = []
digits (suc fuel) n =
    let rest = digits fuel (n / 10) in
    if ltb n 10 then (b'0' + n) ∷ [] else rest ++ ((b'0' + n % 10) ∷ [])

pub tostr : ℤ → Text
unfolding digits
tostr (pos n) = digits (suc n) n
tostr (negsuc n) = b'-' ∷ digits (suc (suc n)) (suc n)

-- The value of the digits that a text begins with.
scan_digits : ℕ → Text → ℕ
scan_digits acc [] = acc
scan_digits acc (c ∷ cs) = if is_digit c then scan_digits (acc * 10 + (c - b'0')) cs else acc

-- The ends of a `long`.
clamp_pos : ℕ → ℤ
clamp_pos n = pos (min n (2 ^ 63 - 1))

clamp_neg : ℕ → ℤ
clamp_neg zero = pos 0
clamp_neg (suc n) = negsuc (min n (2 ^ 63 - 1))

signed : Text → ℤ
unfolding clamp_pos clamp_neg scan_digits is_digit
signed [] = pos 0
signed (c ∷ cs) =
    if c == b'-'
    then clamp_neg (scan_digits 0 cs)
    else if c == b'+'
    then clamp_pos (scan_digits 0 cs)
    else clamp_pos (scan_digits 0 (c ∷ cs))

-- `strtol` in base 10.
unfoldable pub tolong : Text → ℤ
unfolding signed is_space
tolong [] = pos 0
tolong (c ∷ cs) = let rest = tolong cs in if is_space c then rest else signed (c ∷ cs)

all_digits : Text → Bool
all_digits [] = true
all_digits (c ∷ cs) = is_digit c && all_digits cs

-- A sign alone passes.
unfoldable pub str_is_number : Text → Bool
unfolding all_digits is_digit
str_is_number [] = false
str_is_number (c ∷ cs) = if c == b'-' || c == b'+' then all_digits cs else all_digits (c ∷ cs)

digit-is_digit : (d : ℕ) → d < 10 → is_digit (b'0' + d) ≡ true
unfolding is_digit
digit-is_digit d h = ground arith

scan_digits-append :
    (acc : ℕ) (xs : Text) (d : ℕ)
    → All (λ c. is_digit c ≡ true) xs
    → d < 10
    → scan_digits acc (xs ++ ((b'0' + d) ∷ [])) ≡ scan_digits acc xs * 10 + d
unfolding scan_digits
scan_digits-append acc [] d h lt = ground (arith, digit-is_digit d lt)
scan_digits-append acc (x ∷ xs) d h lt =
    rw (h.0, scan_digits) (scan_digits-append (acc * 10 + (x - b'0')) xs d h.1 lt)

All-concat :
    (xs : Text) (d : ℕ)
    → All (λ c. is_digit c ≡ true) xs
    → d < 10
    → All (λ c. is_digit c ≡ true) (xs ++ ((b'0' + d) ∷ []))
All-concat [] d h lt = (digit-is_digit d lt, tt)
All-concat (x ∷ xs) d h lt = (h.0, All-concat xs d h.1 lt)

digits-is_digit : (fuel n : ℕ) → All (λ c. is_digit c ≡ true) (digits fuel n)
unfolding digits
digits-is_digit zero n = tt
digits-is_digit (suc fuel) n = elim (Bool-cases (ltb n 10)) [
  | inl one ↦ rw (one, digits) (digit-is_digit n (ground arith), tt)
  | inr more ↦
      rw (more, digits)
        (All-concat (digits fuel (n / 10)) (n % 10) (digits-is_digit fuel (n / 10)) (omega arith))
]

scan_digits-digits : (fuel n : ℕ) → n < fuel → scan_digits 0 (digits fuel n) ≡ n
unfolding digits
scan_digits-digits zero n h = elim h [ ]
scan_digits-digits (suc fuel) n h = elim (Bool-cases (ltb n 10)) [
  | inl one ↦ rw (one, digits) (unfold scan_digits in ground (arith, digit-is_digit n))
  | inr more ↦
      rw (more, digits)
        (scan_digits-append 0 (digits fuel (n / 10)) (n % 10) (digits-is_digit fuel (n / 10))
            (omega arith)
          ∙ ground (arith, scan_digits-digits fuel (n / 10)))
]

snoc_cons : (xs : Text) (x : ℕ) → (c : ℕ) × (cs : Text) × (xs ++ (x ∷ []) ≡ c ∷ cs)
snoc_cons [] x = (x, [], refl)
snoc_cons (y ∷ ys) x = (y, ys ++ (x ∷ []), refl)

digits-nonempty : (fuel n : ℕ) → (c : ℕ) × (cs : Text) × (digits (suc fuel) n ≡ c ∷ cs)
unfolding digits
digits-nonempty fuel n = elim (Bool-cases (ltb n 10)) [
  | inl one ↦ (b'0' + n, [], rw (one, digits))
  | inr more ↦
      let (c, cs, e) = snoc_cons (digits fuel (n / 10)) (b'0' + n % 10) in
      (c, cs, rw (more, digits) e)
]

-- Reading digits as a signed number, where they are at hand.
tolong_digits :
    (s : Text)
    → (c : ℕ) × (cs : Text) × (s ≡ c ∷ cs)
    → All (λ c. is_digit c ≡ true) s
    → tolong s ≡ clamp_pos (scan_digits 0 s)
unfolding tolong
tolong_digits [] (c, cs, e) h = cc
tolong_digits (x ∷ xs) (c, cs, e) h = ground (arith, h.0)

tolong_minus : (s : Text) → tolong (b'-' ∷ s) ≡ clamp_neg (scan_digits 0 s)
unfolding tolong
tolong_minus s = refl

-- The values of a `long`.
abbrev pub IsLong : ℤ → Type 0
IsLong (pos n) = n < 2 ^ 63
IsLong (negsuc n) = n < 2 ^ 63

-- Printing a `long` and reading it gives it back.
pub tolong-tostr : (n : ℤ) → IsLong n → tolong (tostr n) ≡ n
unfolding tostr
tolong-tostr (pos n) h =
    tolong_digits (digits (suc n) n) (digits-nonempty n n) (digits-is_digit (suc n) n)
    ∙ rw (scan_digits-digits (suc n) n (omega arith)) (unfold clamp_pos in ap pos (omega arith))
tolong-tostr (negsuc n) h =
    tolong_minus (digits (suc (suc n)) (suc n))
    ∙ rw (scan_digits-digits (suc (suc n)) (suc n) (omega arith))
        (unfold clamp_neg in ap negsuc (omega arith))

digits-Lacks : (ch : ℕ) (fuel n : ℕ) → ch < b'-' → All (λ c. c ≢ ch) (digits fuel n)
unfolding digits
digits-Lacks ch zero n low = tt
digits-Lacks ch (suc fuel) n low = elim (Bool-cases (ltb n 10)) [
  | inl last ↦ rw last (omega arith, tt)
  | inr more ↦ rw more (
      All-append (λ c. c ≢ ch) (digits fuel (n / 10)) _ (digits-Lacks ch fuel (n / 10) low)
        (omega arith, tt))
]

-- A printed number has only digits and perhaps a minus sign.
pub tostr-Lacks : (ch : ℕ) (n : ℤ) → ch < b'-' → All (λ c. c ≢ ch) (tostr n)
unfolding tostr
tostr-Lacks ch (pos n) low = digits-Lacks ch (suc n) n low
tostr-Lacks ch (negsuc n) low = (omega arith, digits-Lacks ch (suc (suc n)) (suc n) low)

-- A printed number begins with a digit or a minus sign, and only digits follow.
pub tostr_shape :
    (n : ℤ)
    → (c : ℕ) × (cs : Text) × (tostr n ≡ c ∷ cs)
      × ((is_digit c || c == b'-') ≡ true)
      × All (λ d. is_digit d ≡ true) cs
unfolding tostr
tostr_shape (negsuc n) = (
  b'-',
  digits (suc (suc n)) (suc n),
  refl,
  unfold is_digit in refl,
  digits-is_digit (suc (suc n)) (suc n),
)
tostr_shape (pos n) =
    let (c, cs, e) = digits-nonempty n n in
    let all : All (λ d. is_digit d ≡ true) (c ∷ cs) = rw e at (digits-is_digit (suc n) n) in
    (c, cs, e, rw all.0 refl, all.1)
