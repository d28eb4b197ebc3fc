-- ===== src/Command/Words.antt =====
-- The words of a command line, as pointers into the buffer of `_MCommand::call`: a pointer is what the
-- buffer holds from there on, in which each separator that was passed is a zero byte. The line is taken
-- to hold no zero byte itself.
pub mod Joins
pub mod Split
use sourcemud.Base.{
  ℕ, zero, suc, ◌+◌, ◌-◌, Bool, true, false, ◌||◌, Option, none, some, List, [], ◌∷◌, map,
}
use sourcemud.Base.Lists.{length, take}
use sourcemud.Base.Tests.{ltb, ◌==◌, if◌then◌else◌}
use sourcemud.Base.Text.{Text}
use sourcemud.Strings.Chars.{c_str}
use sourcemud.Base.Options.{◌>>=◌}

-- `word[strlen(word)] = ' '`
unfoldable pub join_next : Text → Text
join_next [] = []
join_next (c ∷ cs) = let rest = join_next cs in if c == 0 then b' ' ∷ cs else c ∷ rest

-- The loop of `repair`, a number of times.
unfoldable pub join_times : ℕ → Text → Text
join_times zero word = word
join_times (suc n) word = join_times n (join_next word)

-- `std::string(repair(word, cnt))`
unfoldable pub repair : Text → ℕ → Text
unfolding join_times c_str join_next
repair word cnt = c_str (join_times (cnt - 1) word)

unfoldable pub is_separator : ℕ → Bool
is_separator c = c == b' ' || c == b'\t' || c == b'\n' || c == b'\r'

abbrev pub max_command_words : ℕ
max_command_words = 25

-- The buffer once every separator is passed.
unfoldable pub cut : Text → Text
unfolding is_separator
cut = map (λ c. if is_separator c then 0 else c)

-- Behind the loop: a rest is one more word. `words` has room for 25 pointers and the NULL behind them,
-- so a NULL behind 26 is written out of range, which is `none`.
last_word : ℕ → Text → Option (List Text)
unfolding cut
last_word windex [] = some []
last_word windex (c ∷ cs) = if windex == max_command_words then none else some (cut (c ∷ cs) ∷ [])

-- The loop: `windex` words so far, `lptr` the rest of the line, `seen` how much of it was searched, and
-- `ahead` where the search stands.
unfoldable pub split_from : ℕ → Text → ℕ → Text → Option (List Text)
unfolding last_word is_separator cut
split_from windex lptr seen [] = last_word windex lptr
split_from windex lptr seen (c ∷ cs) = elim (ltb windex max_command_words) [
  | false ↦ last_word windex lptr
  | true ↦ elim (is_separator c) [
    | false ↦ split_from windex lptr (suc seen) cs
    | true ↦ elim seen [
      | zero ↦ split_from windex cs 0 cs
      | suc n ↦ split_from (suc windex) cs 0 cs >>= λ ws. some (cut lptr ∷ ws)
    ]
  ]
]

-- `snprintf` into 1024 bytes, and the words.
unfoldable pub split_words : Text → Option (List Text)
unfolding split_from
split_words comm = let buffer = take 1023 comm in split_from 0 buffer 0 buffer
