-- ===== src/Strings/Phrase.antt =====
-- `phraseMatch` of src/common/strings.cc.
pub mod Words
use sourcemud.Base.{ℕ, zero, suc, Bool, true, false, ◌&&◌, List, [], ◌∷◌, ◌++◌}
use sourcemud.Base.Lists.{length}
use sourcemud.Base.Tests.{leb, if◌then◌else◌}
use sourcemud.Base.Text.{Text}
use sourcemud.Strings.Chars.{is_space, case_eq_n}

unfoldable pub skip_spaces : Text → Text
skip_spaces [] = []
skip_spaces (c ∷ cs) = let rest = skip_spaces cs in if is_space c then rest else c ∷ cs

-- The chunks of the phrase: `left` more may begin, `word` is the current one, and `gap` what stands
-- behind it. At the last chunk allowed the scan stops at a space. A chunk at the end of the text takes
-- the gap behind it along, since its length is counted up to the end.
unfoldable pub chunks_from : ℕ → Text → Text → Text → List Text
chunks_from left word gap [] = (word ++ gap) ∷ []
chunks_from zero word gap (c ∷ cs) = elim (is_space c) [
  | true ↦ word ∷ []
  | false ↦ chunks_from zero (word ++ (c ∷ [])) [] cs
]
chunks_from (suc left) word [] (c ∷ cs) = elim (is_space c) [
  | true ↦ chunks_from (suc left) word (c ∷ []) cs
  | false ↦ chunks_from (suc left) (word ++ (c ∷ [])) [] cs
]
chunks_from (suc left) word (g ∷ gap) (c ∷ cs) = elim (is_space c) [
  | true ↦ chunks_from (suc left) word (g ∷ (gap ++ (c ∷ []))) cs
  | false ↦ word ∷ chunks_from left (c ∷ []) [] cs
]

-- The five chunks at most of a phrase without leading spaces.
unfoldable pub chunks_of : Text → List Text
unfolding chunks_from
chunks_of [] = []
chunks_of (c ∷ cs) = chunks_from 4 (c ∷ []) [] cs

-- What the chunks are compared with, in order: each word at the space behind it, and at the end of
-- the text the last one once more, or for the first time, up to the end.
unfoldable pub words_from : Text → Text → Text → List Text
words_from word gap [] = (word ++ gap) ∷ []
words_from word [] (c ∷ cs) = elim (is_space c) [
  | true ↦ word ∷ words_from word (c ∷ []) cs
  | false ↦ words_from (word ++ (c ∷ [])) [] cs
]
words_from word (g ∷ gap) (c ∷ cs) = elim (is_space c) [
  | true ↦ words_from word (g ∷ (gap ++ (c ∷ []))) cs
  | false ↦ words_from (c ∷ []) [] cs
]

-- Whether a word begins with a chunk, in either case.
unfoldable pub begins : Text → Text → Bool
begins chunk word = leb (length chunk) (length word) && case_eq_n (length chunk) word chunk

-- The chunks still to be found.
unfoldable pub find_chunks : List Text → List Text → Bool
unfolding begins
find_chunks [] words = true
find_chunks (chunk ∷ chunks) [] = false
find_chunks (chunk ∷ chunks) (word ∷ words) = elim (begins chunk word) [
  | true ↦ find_chunks chunks words
  | false ↦ find_chunks (chunk ∷ chunks) words
]

-- The match once a chunk is there.
unfoldable pub match_chunks : Text → List Text → Bool
unfolding words_from find_chunks
match_chunks text [] = false
match_chunks text (chunk ∷ chunks) = find_chunks (chunk ∷ chunks) (words_from [] [] text)

unfoldable pub phrase_match : Text → Text → Bool
unfolding skip_spaces chunks_of match_chunks
phrase_match [] test = false
phrase_match (c ∷ cs) test = match_chunks (c ∷ cs) (chunks_of (skip_spaces test))
