-- ===== src/Command/Match/Score.antt =====
-- The scores of failed matches, and the argument of a phrase that takes no words.
use sourcemud.Base.{ℕ, suc, ◌+◌, ◌≤◌, ◌≡◌, refl, true, inl, inr, some, List, [], ◌∷◌, arith}
use sourcemud.Base.Lists.{length}
use sourcemud.Base.Tests.{Bool-cases}
use sourcemud.Base.Text.{Text}
use sourcemud.Command.Format.{NodeType, word, phrase, literal, Node}
use sourcemud.Command.Match.Grammar.{Derives, Outcome-cases, trymatch-Derives}
use sourcemud.Command.Match.{
  Args, Outcome, matched, scored, store, store_phrase, after_word, try_word, try_phrase, try_node,
  trymatch,
}
use sourcemud.Strings.Chars.{c_str}
use sourcemud.Command.Words.{repair}
use sourcemud.Strings.Phrase.{phrase_match}

-- A score is at most a number.
abbrev pub IsWithin : ℕ → Outcome → Type 0
IsWithin n matched = Unit {0}
IsWithin n (scored k) = k ≤ n

abbrev Bounds : (List Text → Args → Outcome × Args) → Type 0
Bounds later = (words : List Text) (argv : Args) → IsWithin (length words) (later words argv).0

scored-IsWithin : (n k : ℕ) (r : Outcome) → r ≡ scored k → IsWithin n r → k ≤ n
scored-IsWithin n k matched e h = cc
scored-IsWithin n k (scored j) e h = ground arith

module _ (n : Node) (later : List Text → Args → Outcome × Args) (bounds : Bounds later) where
  after_word-IsWithin :
      (words : List Text) (r : Outcome × Args) (k : ℕ)
      → IsWithin k r.0
      → suc k ≤ length words
      → IsWithin (length words) (after_word n later words r).0
  unfolding after_word
  after_word-IsWithin words (matched, argv) k h le = tt
  after_word-IsWithin words (scored j, argv) k h le = elim (Bool-cases n.opt) [
    | inl opt ↦ rw (opt, after_word) (bounds words (store n.arg [] argv))
    | inr needed ↦ rw (needed, after_word) (omega arith)
  ]

  try_phrase-IsWithin :
      (w : Text) (cnt : ℕ) (words : List Text) (argv : Args)
      → IsWithin (cnt + length words) (try_phrase n later w cnt words argv).0
  unfolding try_phrase
  try_phrase-IsWithin w cnt [] argv = elim (Outcome-cases (later [] argv).0) [
    | inl m ↦ rw (m, try_phrase) tt
    | inr (k, e) ↦
        let le : k ≤ 0 = scored-IsWithin 0 k (later [] argv).0 e (bounds [] argv) in
        rw (e, try_phrase) (omega arith)
  ]
  try_phrase-IsWithin w cnt (x ∷ xs) argv = elim (Outcome-cases (later (x ∷ xs) argv).0) [
    | inl m ↦ rw (m, try_phrase) tt
    | inr (k, e) ↦
        let shift : cnt + suc (length xs) ≡ suc cnt + length xs = omega arith in
        rw (e, try_phrase, shift) (try_phrase-IsWithin w (suc cnt) xs (later (x ∷ xs) argv).1)
  ]

  try_node-IsWithin :
      (t : NodeType) (w : Text) (ws : List Text) (argv : Args)
      → IsWithin (suc (length ws)) (try_node t n later w ws argv).0
  unfolding try_node try_word
  try_node-IsWithin word w ws argv =
      after_word-IsWithin (w ∷ ws) (later ws (store n.arg (c_str w) argv)) (length ws)
        (bounds ws (store n.arg (c_str w) argv)) (omega arith)
  try_node-IsWithin literal w ws argv = elim (Bool-cases (phrase_match n.literal (c_str w))) [
    | inl fits ↦
        rw (fits, try_node)
          (after_word-IsWithin (w ∷ ws) (later ws (store n.arg n.literal argv)) (length ws)
            (bounds ws (store n.arg n.literal argv)) (omega arith))
    | inr other ↦ rw (other, try_node) (omega arith)
  ]
  try_node-IsWithin phrase w ws argv = elim (Bool-cases n.opt) [
    | inl opt ↦
        let whole : 0 + suc (length ws) ≡ suc (length ws) = omega arith in
        simp opt (rw whole at (try_phrase-IsWithin w 0 (w ∷ ws) argv))
    | inr needed ↦
        let whole : 1 + length ws ≡ suc (length ws) = omega arith in
        simp needed (rw whole at (try_phrase-IsWithin w 1 ws argv))
  ]

-- The score of a failed match is at most the number of words.
pub trymatch-IsWithin :
    (ns : List Node) (words : List Text) (argv : Args)
    → IsWithin (length words) (trymatch ns words argv).0
unfolding trymatch
trymatch-IsWithin [] [] argv = tt
trymatch-IsWithin [] (w ∷ ws) argv = omega arith
trymatch-IsWithin (n ∷ ns) [] argv = elim (Bool-cases n.opt) [
  | inl opt ↦ rw (opt, trymatch) (trymatch-IsWithin ns [] argv)
  | inr needed ↦ rw (needed, trymatch) (omega arith)
]
trymatch-IsWithin (n ∷ ns) (w ∷ ws) argv =
    try_node-IsWithin n (trymatch ns) (trymatch-IsWithin ns) n.node_type w ws argv

-- An optional phrase that takes no words, since the later nodes match the line as it stands, still
-- stores the first word as its argument, over what they stored, with the words behind it that they
-- have joined to it.
pub trymatch_no_phrase :
    (ns : List Node) (i : ℕ) (w : Text) (ws : List Text) (argv : Args)
    → Derives ns (w ∷ ws)
    → trymatch
        (record { node_type = phrase; arg = some i; opt = true; literal = [] } ∷ ns)
        (w ∷ ws)
        argv
      ≡ (
        matched,
        store
            (some i)
            (repair w (trymatch ns (w ∷ ws) argv).1.joined)
            (trymatch ns (w ∷ ws) argv).1,
      )
unfolding trymatch try_node try_phrase store_phrase
trymatch_no_phrase ns i w ws argv d = rw ((trymatch-Derives ns (w ∷ ws) argv).1 d, try_phrase) refl
