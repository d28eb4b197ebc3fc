-- ===== src/Paths.antt =====
-- The functions of src/common/file.cc on paths. What is on the disk, and `fnmatch`, are not modelled;
-- `filter` takes the test as an argument.
use sourcemud.Base.{ℕ, Bool, true, false, ◌||◌, Option, none, some, List, [], ◌∷◌, ◌++◌}
use sourcemud.Base.Options.{◌>>=◌}
use sourcemud.Base.Tests.{◌==◌, if◌then◌else◌}
use sourcemud.Base.Text.{Text, codes, text_eq}
use sourcemud.Strings.Chars.{strlower}
use sourcemud.Strings.Split.{explode, implode}
pub mod Normal
pub mod Examples

abbrev pub rev_onto {ℓ} : {A : Type ℓ} → List A → List A → List A
rev_onto [] ys = ys
rev_onto (x ∷ xs) ys = rev_onto xs (x ∷ ys)

abbrev pub drop_last : List Text → List Text
drop_last [] = []
drop_last (p ∷ ps) = ps

-- A component that is left out, and one that takes the component before it along.
unfoldable pub is_skipped : Text → Bool
is_skipped p = text_eq p (codes ".") || text_eq p []

unfoldable pub is_up : Text → Bool
is_up p = text_eq p (codes "..")

-- The loop of `normalize`: the components that are kept before `i`, the last of them first, and those
-- from `i` on.
unfoldable pub resolve : List Text → List Text → List Text
resolve kept [] = rev_onto kept []
resolve kept (p ∷ ps) = elim (is_skipped p) [
  | true ↦ resolve kept ps
  | false ↦ elim (is_up p) [ true ↦ resolve (drop_last kept) ps | false ↦ resolve (p ∷ kept) ps ]
]

unfoldable pub normalize : Text → Text
unfolding resolve
normalize path = b'/' ∷ implode (resolve [] (explode path b'/')) b'/'

-- The text before and behind the last byte that passes a test.
unfoldable pub split_last : (ℕ → Bool) → Text → Option (Text × Text)
split_last test [] = none
split_last test (c ∷ cs) = elim (split_last test cs) [
  | some s ↦ some (c ∷ s.0, s.1)
  | none ↦ if test c then some ([], cs) else none
]

pub record PathInfo : Type 0 where
  pub dir : Text
  pub file : Text
  pub ext : Text

abbrev pub behind_dot : Option (Text × Text) → Text
behind_dot none = []
behind_dot (some s) = s.1

unfoldable pub pathinfo : Text → PathInfo
unfolding split_last
pathinfo path = elim (split_last (λ c. c == b'/') path) [
  | some s ↦ record { dir = s.0; file = s.1; ext = behind_dot (split_last (λ c. c == b'.') s.1) }
  | none ↦ record {
    dir = codes ".";
    file = path;
    ext = behind_dot (split_last (λ c. c == b'.') path);
  }
]

abbrev pub mime_map : List (Text × Text)
mime_map =
    (codes "txt", codes "text/plain")
    ∷ (codes "html", codes "text/html")
    ∷ (codes "css", codes "text/css")
    ∷ (codes "js", codes "text/js")
    ∷ (codes "lua", codes "application/x-lua")
    ∷ (codes "png", codes "image/png")
    ∷ (codes "jpg", codes "image/jpg")
    ∷ (codes "gif", codes "image/gif")
    ∷ []

unfoldable pub find_mime : List (Text × Text) → Text → Text
find_mime [] ext = codes "unknown"
find_mime (m ∷ ms) ext = if text_eq m.0 ext then m.1 else find_mime ms ext

unfoldable pub get_mime_type : Text → Text
unfolding split_last find_mime
get_mime_type path = elim (split_last (λ c. c == b'/' || c == b'.') path) [
  | none ↦ codes "unknown"
  | some s ↦ find_mime mime_map (strlower s.1)
]

-- `filter`
unfoldable pub filter_files : (Text → Bool) → List Text → List Text
filter_files match [] = []
filter_files match (f ∷ fs) = elim (match f) [
  | true ↦ f ∷ filter_files match fs
  | false ↦ filter_files match fs
]
