-- ===== src/Command/Match.antt =====
-- `CommandFormat::trymatch`. The result -1 is `matched`, any other its score. `repair` joins words in the
-- line only once the later nodes match; an optional phrase of no words is the one node that reads
-- what a later one has joined.
pub mod Grammar
pub mod Score
use sourcemud.Base.{ℕ, zero, suc, ◌+◌, Bool, true, false, Option, none, some, List, [], ◌∷◌}
use sourcemud.Base.Tests.{if◌then◌else◌}
use sourcemud.Base.Text.{Text}
use sourcemud.Command.Format.{NodeType, word, phrase, literal, Node}
use sourcemud.Strings.Chars.{c_str}
use sourcemud.Command.Words.{repair}
use sourcemud.Strings.Phrase.{phrase_match}

pub data Outcome : Type 0 where
  matched : Outcome
  scored : ℕ → Outcome

-- `argv`, and how many words from `words[0]` on a later phrase has joined in the line.
pub record Args : Type 0 where
  pub argv : List Text
  pub joined : ℕ

-- An index behind the end of `argv` stores nothing here, and `build` makes none.
unfoldable pub set_arg : ℕ → Text → List Text → List Text
set_arg i text [] = []
set_arg zero text (x ∷ xs) = text ∷ xs
set_arg (suc i) text (x ∷ xs) = x ∷ set_arg i text xs

-- Stored where the node has an index.
unfoldable pub store : Option ℕ → Text → Args → Args
unfolding set_arg
store none text a = a
store (some i) text a = record a { argv = set_arg i text a.argv }

-- What a node that takes the first word leaves: a later phrase has joined words behind it only.
abbrev pub fresh : Args → Args
fresh a = record a { joined = 0 }

-- The text of a phrase of `cnt` words, of which none is left out: the words are joined, once more or
-- for the first time. Without an index nothing is joined.
unfoldable pub store_phrase : Option ℕ → Text → ℕ → Args → Args
unfolding store repair
store_phrase arg w zero a = store arg (repair w a.joined) a
store_phrase none w (suc n) a = fresh a
store_phrase (some i) w (suc n) a = record {
  argv = set_arg i (repair w (suc n)) a.argv;
  joined = suc n;
}

-- Behind the first word: the argument is cleared where the later nodes fail, and an optional node is
-- left out then.
unfoldable pub after_word :
    Node → (List Text → Args → Outcome × Args) → List Text → Outcome × Args → Outcome × Args
unfolding store
after_word n later words (matched, argv) = (matched, fresh argv)
after_word n later words (scored k, argv) =
    if n.opt then later words (store n.arg [] argv) else (scored (suc k), store n.arg [] argv)

-- A word or a literal takes the first word.
unfoldable pub try_word :
    Node → (List Text → Args → Outcome × Args) → Text → List Text → Text → Args → Outcome × Args
unfolding after_word store
try_word n later w ws text argv = after_word n later (w ∷ ws) (later ws (store n.arg text argv))

-- The loop of a phrase that has taken `cnt` words from `w` on, `words` being the rest.
unfoldable pub try_phrase :
    Node → (List Text → Args → Outcome × Args) → Text → ℕ → List Text → Args → Outcome × Args
unfolding store_phrase
try_phrase n later w cnt [] argv =
    let (r, a') = later [] argv in
    elim r [ matched ↦ (matched, store_phrase n.arg w cnt a') | scored k ↦ (scored (cnt + k), a') ]
try_phrase n later w cnt (x ∷ xs) argv =
    let (r, a') = later (x ∷ xs) argv in
    elim r [
      | matched ↦ (matched, store_phrase n.arg w cnt a')
      | scored k ↦ try_phrase n later w (suc cnt) xs a'
    ]

-- A node where there are words.
unfoldable pub try_node :
    NodeType → Node → (List Text → Args → Outcome × Args) → Text → List Text → Args → Outcome × Args
unfolding try_word try_phrase c_str
try_node word n later w ws argv = try_word n later w ws (c_str w) argv
try_node phrase n later w ws argv =
    if n.opt then try_phrase n later w 0 (w ∷ ws) argv else try_phrase n later w 1 ws argv
try_node literal n later w ws argv =
    if phrase_match n.literal (c_str w)
    then try_word n later w ws n.literal argv
    else (scored 0, argv)

unfoldable pub trymatch : List Node → List Text → Args → Outcome × Args
unfolding try_node
trymatch [] [] argv = (matched, fresh argv)
trymatch [] (w ∷ ws) argv = (scored 0, argv)
trymatch (n ∷ ns) [] argv = if n.opt then trymatch ns [] argv else (scored 0, argv)
trymatch (n ∷ ns) (w ∷ ws) argv = try_node n.node_type n (trymatch ns) w ws argv
