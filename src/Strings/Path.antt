-- ===== src/Strings/Path.antt =====
-- `prefixMatch`, `hasSuffix`, `makePath` and `baseName` of src/common/strings.cc.
use mathlib.Core.List.{append_assoc}
use sourcemud.Base.{
  ℕ, zero, suc, ◌-◌, ◌≡◌, ◌↔◌, refl, ap, ◌∙◌, Bool, true, false, inl, inr, Option, none, some, [],
  ◌∷◌, ◌++◌, map, arith,
}
use sourcemud.Base.Lists.{length, take, drop, length-append}
use sourcemud.Base.Tests.{ltb, ◌==◌, if◌then◌else◌, Bool-cases}
use sourcemud.Base.Text.{Text, text_eq, text_eq_iff}
use sourcemud.Strings.Chars.{to_lower, case_eq_n}
use sourcemud.Strings.Split.{Lacks}

pub prefix_match : Text → Text → Bool
prefix_match string prefix = case_eq_n (length prefix) string prefix

prefix_match_sound :
    (s p : Text)
    → case_eq_n (length p) s p ≡ true
    → (rest : Text) × (map to_lower s ≡ map to_lower p ++ rest)
unfolding case_eq_n
prefix_match_sound s [] h = (map to_lower s, refl)
prefix_match_sound [] (y ∷ ys) h = cc
prefix_match_sound (x ∷ xs) (y ∷ ys) h =
    let (rest, e) = prefix_match_sound xs ys (ground arith) in (rest, ground arith)

prefix_match_complete :
    (s p rest : Text) → map to_lower s ≡ map to_lower p ++ rest → case_eq_n (length p) s p ≡ true
unfolding case_eq_n
prefix_match_complete s [] rest e = refl
prefix_match_complete [] (y ∷ ys) rest e = cc
prefix_match_complete (x ∷ xs) (y ∷ ys) rest e = ground (arith, prefix_match_complete xs ys rest)

-- A prefix matches exactly where the text in lower case begins with the prefix in lower case.
pub prefix_match_iff :
    (s p : Text)
    → (prefix_match s p ≡ true) ↔ ((rest : Text) × (map to_lower s ≡ map to_lower p ++ rest))
unfolding prefix_match
prefix_match_iff s p = (prefix_match_sound s p, λ found. prefix_match_complete s p found.0 found.1)

pub has_suffix : Text → Text → Bool
unfolding text_eq
has_suffix base suffix =
    if ltb (length base) (length suffix)
    then false
    else text_eq (drop (length base - length suffix) base) suffix

drop-append : (front s : Text) → drop (length front) (front ++ s) ≡ s
drop-append [] s = refl
drop-append (c ∷ front) s = drop-append front s

take-append-drop : (n : ℕ) (s : Text) → take n s ++ drop n s ≡ s
take-append-drop zero s = refl
take-append-drop (suc n) [] = refl
take-append-drop (suc n) (c ∷ s) = ap (λ l. c ∷ l) (take-append-drop n s)

ends_with : (base suffix front : Text) → base ≡ front ++ suffix → has_suffix base suffix ≡ true
unfolding has_suffix
ends_with base suffix front e =
    let len = ap length e ∙ length-append front suffix in
    let cut : length base - length suffix ≡ length front = omega arith in
    let same : drop (length base - length suffix) base ≡ suffix =
      rw cut (ap (drop (length front)) e ∙ drop-append front suffix) in
    ground (arith, (text_eq_iff (drop (length base - length suffix) base) suffix).1 same)

-- `hasSuffix` holds exactly where the text ends with the suffix.
pub has_suffix_iff :
    (base suffix : Text)
    → (has_suffix base suffix ≡ true) ↔ ((front : Text) × (base ≡ front ++ suffix))
unfolding has_suffix
has_suffix_iff base suffix = (
  λ h. (
    take (length base - length suffix) base,
    ground (
      arith,
      take-append-drop (length base - length suffix) base,
      text_eq_iff (drop (length base - length suffix) base) suffix,
    ),
  ),
  λ found. ends_with base suffix found.0 found.1,
)

-- What stands behind the last `c` (`strrchr`), and what stands before it.
after_last : ℕ → Text → Option Text
after_last c [] = none
after_last c (x ∷ xs) = elim (after_last c xs) [
  | some rest ↦ some rest
  | none ↦ if x == c then some xs else none
]

before_last : ℕ → Text → Option Text
before_last c [] = none
before_last c (x ∷ xs) = elim (before_last c xs) [
  | some front ↦ some (x ∷ front)
  | none ↦ if x == c then some [] else none
]

abbrev or_whole : Option Text → Text → Text
or_whole none s = s
or_whole (some t) s = t

pub base_name : Text → Text
unfolding after_last before_last
base_name path =
    let start = or_whole (after_last b'/' path) path in or_whole (before_last b'.' start) start

last_is : ℕ → Text → Bool
last_is c [] = false
last_is c (x ∷ []) = x == c
last_is c (x ∷ y ∷ ys) = last_is c (y ∷ ys)

-- A path that is not empty in front of a file.
join_path : Text → Text → Text
unfolding last_is
join_path [] file = file
join_path (c ∷ cs) file =
    if last_is b'/' (c ∷ cs) then (c ∷ cs) ++ file else (c ∷ cs) ++ (b'/' ∷ file)

pub make_path : Text → Text → Text
unfolding join_path
make_path path [] = join_path path []
make_path path (c ∷ cs) = if c == b'/' then c ∷ cs else join_path path (c ∷ cs)

after_last-none : (c : ℕ) (s : Text) → Lacks c s → after_last c s ≡ none
unfolding after_last
after_last-none c [] h = refl
after_last-none c (x ∷ xs) h = ground (arith, after_last-none c xs h.1, h.0)

after_last-append : (c : ℕ) (front s : Text) → Lacks c s → after_last c (front ++ (c ∷ s)) ≡ some s
unfolding after_last
after_last-append c [] s h = ground (arith, after_last-none c s h)
after_last-append c (x ∷ xs) s h = rw (after_last-append c xs s h)

before_last-none : (c : ℕ) (s : Text) → Lacks c s → before_last c s ≡ none
unfolding before_last
before_last-none c [] h = refl
before_last-none c (x ∷ xs) h = ground (arith, before_last-none c xs h.1, h.0)

before_last-append :
    (c : ℕ) (front s : Text) → Lacks c s → before_last c (front ++ (c ∷ s)) ≡ some front
unfolding before_last
before_last-append c [] s h = ground (arith, before_last-none c s h)
before_last-append c (x ∷ xs) s h = rw (before_last-append c xs s h)

-- What `baseName` takes its name from in a path and in what `makePath` makes of it.
base_name_start :
    (front file : Text)
    → Lacks b'/' file
    → base_name (front ++ (b'/' ∷ file)) ≡ or_whole (before_last b'.' file) file
unfolding base_name
base_name_start front file h = rw (after_last-append b'/' front file h)

base_name_file :
    (file : Text) → Lacks b'/' file → base_name file ≡ or_whole (before_last b'.' file) file
unfolding base_name
base_name_file file h = rw (after_last-none b'/' file h)

last_is-split : (c : ℕ) (s : Text) → last_is c s ≡ true → (front : Text) × (s ≡ front ++ (c ∷ []))
unfolding last_is
last_is-split c [] h = cc
last_is-split c (x ∷ []) h = ([], ground arith)
last_is-split c (x ∷ y ∷ ys) h =
    let (front, e) = last_is-split c (y ∷ ys) h in (x ∷ front, ap (λ l. x ∷ l) e)

base_name-join_path :
    (path file : Text)
    → Lacks b'/' file
    → base_name (join_path path file) ≡ or_whole (before_last b'.' file) file
unfolding join_path
base_name-join_path [] file h = base_name_file file h
base_name-join_path (c ∷ cs) file h = elim (Bool-cases (last_is b'/' (c ∷ cs))) [
  | inl slash ↦
      let (front, e) = last_is-split b'/' (c ∷ cs) slash in
      rw (slash, join_path)
        (ap (λ p. base_name (p ++ file)) e
          ∙ ap base_name (append_assoc front (b'/' ∷ []) file)
          ∙ base_name_start front file h)
  | inr bare ↦ rw (bare, join_path) (base_name_start (c ∷ cs) file h)
]

make_path_relative :
    (path file : Text) → Lacks b'/' file → make_path path file ≡ join_path path file
unfolding make_path
make_path_relative path [] h = refl
make_path_relative path (c ∷ cs) h = ground (arith, h.0)

-- The base name of a path that was made of a directory and a file is the file's name without its
-- last extension.
pub base_name-make_path :
    (path name ext : Text)
    → Lacks b'/' (name ++ (b'.' ∷ ext))
    → Lacks b'.' ext
    → base_name (make_path path (name ++ (b'.' ∷ ext))) ≡ name
base_name-make_path path name ext h k =
    ap base_name (make_path_relative path (name ++ (b'.' ∷ ext)) h)
    ∙ base_name-join_path path (name ++ (b'.' ∷ ext)) h
    ∙ rw (before_last-append b'.' name ext k)
