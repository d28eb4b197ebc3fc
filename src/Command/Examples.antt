-- ===== src/Command/Examples.antt =====
-- Runs of the command line: `put * in *`, `get %` and others.
use sourcemud.Base.{ℕ, ◌≡◌, ◌↔◌, refl, inl, true, false, none, some, List, [], ◌∷◌, ◌++◌, arith}
use sourcemud.Base.Int.{pos}
use sourcemud.Base.Lists.{All}
use sourcemud.Base.Tests.{◌==◌}
use sourcemud.Base.Text.{Text, codes}
use sourcemud.Command.Dispatch.First.{IsRefused, Runs, call_first, call-IsRefused}
use sourcemud.Command.Dispatch.{Format, Called, no_args, call}
use sourcemud.Command.Format.Bounds.{IsIndex, build-IsIndex}
use sourcemud.Command.Format.{word, phrase, literal, Node, build}
use sourcemud.Command.Match.Grammar.{Derives, done, taken, trymatch-Derives}
use sourcemud.Command.Match.{matched, trymatch}
use sourcemud.Command.Order.{format_less, format_less_flip}
use sourcemud.Command.Words.Split.{spaced, split_words_fault}
use sourcemud.Strings.Chars.{c_str, case_eq_n, is_space, to_lower}
use sourcemud.Command.Words.{repair, cut, is_separator, split_from, split_words}
use sourcemud.Strings.Phrase.{
  phrase_match, skip_spaces, chunks_of, chunks_from, words_from, find_chunks, begins, match_chunks,
}

-- Nodes of a format.
abbrev the_word : ℕ → Node
the_word i = record { node_type = word; arg = some i; opt = false; literal = [] }

abbrev the_literal : Text → Node
the_literal text = record { node_type = literal; arg = none; opt = false; literal = text }

abbrev the_phrase : ℕ → Node
the_phrase i = record { node_type = phrase; arg = some i; opt = false; literal = [] }

abbrev put_in : List Node
put_in = the_literal (codes "put") ∷ the_phrase 0 ∷ the_literal (codes "in") ∷ the_phrase 1 ∷ []

abbrev get_it : List Node
get_it = the_literal (codes "get") ∷ the_word 0 ∷ []

-- The pointers into a buffer of two words.
abbrev get_key : List Text
get_key = (codes "get" ++ (0 ∷ codes "key")) ∷ codes "key" ∷ []

split_get_key : split_words (codes "get key") ≡ some get_key
unfolding split_words split_from is_separator cut
split_get_key = refl

get_matches : phrase_match (codes "get") (c_str (codes "get" ++ (0 ∷ codes "key"))) ≡ true
unfolding phrase_match skip_spaces chunks_of chunks_from words_from find_chunks begins match_chunks
    c_str is_space case_eq_n to_lower
get_matches = refl

get_key-Derives : Derives get_it get_key
get_key-Derives = taken get_matches (taken tt done)

trymatch-Derives_example :
    ((trymatch put_in (codes "put" ∷ codes "key" ∷ []) no_args).0 ≡ matched)
    ↔ Derives put_in (codes "put" ∷ codes "key" ∷ [])
trymatch-Derives_example = trymatch-Derives put_in (codes "put" ∷ codes "key" ∷ []) no_args

-- The optional phrase takes no words, but reads those that the phrase behind it has joined.
abbrev two_phrases : List Node
two_phrases =
    record { node_type = phrase; arg = some 0; opt = true; literal = [] } ∷ the_phrase 1 ∷ []

two_phrases_args : trymatch two_phrases get_key no_args ≡ (
  matched,
  record {
    argv = codes "get key" ∷ codes "get key" ∷ [] ∷ [] ∷ [] ∷ [] ∷ [] ∷ [] ∷ [] ∷ [] ∷ [];
    joined = 2;
  },
)
unfolding trymatch repair c_str
two_phrases_args = refl

abbrev get_format : Format
get_format = record { command = 1; nodes = get_it; has_ch_func = true; has_ply_func = false }

abbrev put_format : Format
put_format = record { command = 0; nodes = put_in; has_ch_func = true; has_ply_func = false }

call_first_example :
    (r : Called) × (call (λ c. c == 1) true (put_format ∷ get_format ∷ []) (codes "get key")
      ≡ some r)
    × Runs (λ c. c == 1) true get_format (trymatch get_it get_key no_args).1.argv r
call_first_example =
    call_first (λ c. c == 1) true (codes "get key") (codes "get" ++ (0 ∷ codes "key"))
      (codes "key" ∷ []) (put_format ∷ []) get_format [] split_get_key (inl refl, tt) refl
      get_key-Derives

call-IsRefused_example :
    (r : Called) × (call (λ c. c == 1) true (put_format ∷ []) (codes "get key") ≡ some r)
    × IsRefused (λ c. c == 1) true r
call-IsRefused_example =
    call-IsRefused (λ c. c == 1) true (codes "get key") (codes "get" ++ (0 ∷ codes "key"))
      (codes "key" ∷ []) (put_format ∷ []) split_get_key (inl refl, tt)

-- Twenty-five words.
abbrev five : List Text → List Text
five ws = codes "a" ∷ codes "a" ∷ codes "a" ∷ codes "a" ∷ codes "a" ∷ ws

abbrev many_words : List Text
many_words = five (five (five (five (five []))))

split_words_fault_example : split_words (spaced many_words ++ codes "a") ≡ none
split_words_fault_example =
    split_words_fault many_words b'a' [] refl (unfold spaced in omega arith)
      (unfold is_separator in ground arith)

build-IsIndex_example : All (λ n. IsIndex n.arg) (build (codes "put *:99")).0
build-IsIndex_example = build-IsIndex (codes "put *:99")

put_before_get : format_less (pos 100) get_it (pos 200) put_in ≡ some true
unfolding format_less
put_before_get = refl

format_less_flip_example : format_less (pos 200) put_in (pos 100) get_it ≡ some false
format_less_flip_example = format_less_flip (pos 100) (pos 200) get_it put_in put_before_get
