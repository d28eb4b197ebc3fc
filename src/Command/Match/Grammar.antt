-- ===== src/Command/Match/Grammar.antt =====
-- The command lines that a format stands for.
use sourcemud.Base.{
  ℕ, suc, ◌+◌, ◌≡◌, ◌≢◌, ◌↔◌, ◌⊎◌, refl, ap, sym, subst, true, inl, inr, List, [], ◌∷◌, ◌++◌,
}
use sourcemud.Base.Tests.{Bool-cases}
use sourcemud.Base.Text.{Text}
use sourcemud.Command.Format.{NodeType, word, phrase, literal, Node}
use sourcemud.Command.Match.{
  Args, Outcome, matched, scored, store, after_word, try_word, try_phrase, try_node, trymatch,
}
use sourcemud.Strings.Chars.{c_str}
use sourcemud.Strings.Phrase.{phrase_match}

-- Whether a node takes a word by itself.
abbrev pub Takes : NodeType → Node → Text → Type 0
Takes word n w = Unit {0}
Takes phrase n w = ⊥
Takes literal n w = phrase_match n.literal (c_str w) ≡ true

-- The lines of a format: a word and a literal take one word, a phrase some, or none if it is optional.
-- An optional node is left out at the end of the line, or in front of a word that it could take.
pub data Derives : List Node → List Text → Type 0 where
  done : Derives [] []
  absent : {n : Node} {ns : List Node} → n.opt ≡ true → Derives ns [] → Derives (n ∷ ns) []
  taken :
      {n : Node} {ns : List Node} {w : Text} {ws : List Text}
      → Takes n.node_type n w
      → Derives ns ws
      → Derives (n ∷ ns) (w ∷ ws)
  left_out :
      {n : Node} {ns : List Node} {w : Text} {ws : List Text}
      → Takes n.node_type n w
      → n.opt ≡ true
      → Derives ns (w ∷ ws)
      → Derives (n ∷ ns) (w ∷ ws)
  joined :
      {n : Node} {ns : List Node} {w : Text} {ws : List Text}
      → n.node_type ≡ phrase
      → (front rest : List Text) → w ∷ ws ≡ front ++ rest
      → (n.opt ≡ true) ⊎ (front ≢ [])
      → Derives ns rest
      → Derives (n ∷ ns) (w ∷ ws)

-- The later nodes decide a property of the words, whatever the arguments.
abbrev Decides : (List Text → Args → Outcome × Args) → (List Text → Type 0) → Type 0
Decides later P = (words : List Text) (argv : Args) → ((later words argv).0 ≡ matched) ↔ P words

-- The outcome is one or the other.
pub Outcome-cases : (r : Outcome) → (r ≡ matched) ⊎ ((k : ℕ) × (r ≡ scored k))
Outcome-cases matched = inl refl
Outcome-cases (scored k) = inr (k, refl)

module _ (n : Node) (later : List Text → Args → Outcome × Args) (P : List Text → Type 0)
    (decides : Decides later P) where
  after_word_sound :
      (words : List Text) (r : Outcome × Args)
      → (after_word n later words r).0 ≡ matched
      → (r.0 ≡ matched) ⊎ ((n.opt ≡ true) × P words)
  unfolding after_word
  after_word_sound words (matched, argv) h = inl refl
  after_word_sound words (scored k, argv) h = elim (Bool-cases n.opt) [
    | inl opt ↦ inr (opt, (decides words (store n.arg [] argv)).0 (rw (opt, after_word) at h))
    | inr needed ↦ let bad : scored (suc k) ≡ matched = rw (needed, after_word) at h in cc
  ]

  after_word_complete :
      (words : List Text) (r : Outcome × Args)
      → (r.0 ≡ matched) ⊎ ((n.opt ≡ true) × P words)
      → (after_word n later words r).0 ≡ matched
  unfolding after_word
  after_word_complete words (matched, argv) h = refl
  after_word_complete words (scored k, argv) (inl h) = cc
  after_word_complete words (scored k, argv) (inr (opt, p)) =
      rw (opt, after_word) ((decides words (store n.arg [] argv)).1 p)

  try_word-Decides :
      (w : Text) (ws : List Text) (text : Text) (argv : Args)
      → ((try_word n later w ws text argv).0 ≡ matched) ↔ (P ws ⊎ ((n.opt ≡ true) × P (w ∷ ws)))
  unfolding try_word
  try_word-Decides w ws text argv = (
    λ h. elim (after_word_sound (w ∷ ws) (later ws (store n.arg text argv)) h) [
      | inl m ↦ inl ((decides ws (store n.arg text argv)).0 m)
      | inr p ↦ inr p
    ],
    λ h.
        after_word_complete (w ∷ ws) (later ws (store n.arg text argv))
          (elim h [ inl p ↦ inl ((decides ws (store n.arg text argv)).1 p) | inr p ↦ inr p ]),
  )

  -- The loop tries every rest of the words.
  try_phrase_sound :
      (w : Text) (cnt : ℕ) (words : List Text) (argv : Args)
      → (try_phrase n later w cnt words argv).0 ≡ matched
      → (front rest : List Text) × (words ≡ front ++ rest) × P rest
  unfolding try_phrase
  try_phrase_sound w cnt [] argv h = elim (Outcome-cases (later [] argv).0) [
    | inl m ↦ ([], [], refl, (decides [] argv).0 m)
    | inr (k, e) ↦ let bad : scored (cnt + k) ≡ matched = rw (e, try_phrase) at h in cc
  ]
  try_phrase_sound w cnt (x ∷ xs) argv h = elim (Outcome-cases (later (x ∷ xs) argv).0) [
    | inl m ↦ ([], x ∷ xs, refl, (decides (x ∷ xs) argv).0 m)
    | inr (k, e) ↦
        let (front, rest, e', p) =
          try_phrase_sound w (suc cnt) xs (later (x ∷ xs) argv).1 (rw (e, try_phrase) at h) in
        (x ∷ front, rest, ap (λ l. x ∷ l) e', p)
  ]

  try_phrase_complete :
      (w : Text) (cnt : ℕ) (words : List Text) (argv : Args) (front rest : List Text)
      → words ≡ front ++ rest
      → P rest
      → (try_phrase n later w cnt words argv).0 ≡ matched
  unfolding try_phrase
  try_phrase_complete w cnt [] argv [] rest e p =
      rw ((decides [] argv).1 (subst P (sym e) p), try_phrase) refl
  try_phrase_complete w cnt [] argv (y ∷ front) rest e p = cc
  try_phrase_complete w cnt (x ∷ xs) argv [] rest e p =
      rw ((decides (x ∷ xs) argv).1 (subst P (sym e) p), try_phrase) refl
  try_phrase_complete w cnt (x ∷ xs) argv (y ∷ front) rest e p =
      let tail : xs ≡ front ++ rest = cc in
      elim (Outcome-cases (later (x ∷ xs) argv).0) [
        | inl m ↦ rw (m, try_phrase) refl
        | inr (k, e') ↦
            rw (e', try_phrase)
              (try_phrase_complete w (suc cnt) xs (later (x ∷ xs) argv).1 front rest tail p)
      ]

-- A node in front of nodes that are decided.
node_sound :
    (t : NodeType) (n : Node) (ns : List Node) (w : Text) (ws : List Text) (argv : Args)
    → n.node_type ≡ t
    → Decides (trymatch ns) (Derives ns)
    → (try_node t n (trymatch ns) w ws argv).0 ≡ matched
    → Derives (n ∷ ns) (w ∷ ws)
unfolding try_node
node_sound word n ns w ws argv e decides h =
    elim ((try_word-Decides n (trymatch ns) (Derives ns) decides w ws (c_str w) argv).0 h) [
      | inl d ↦ taken (rw e tt) d
      | inr (opt, d) ↦ left_out (rw e tt) opt d
    ]
node_sound literal n ns w ws argv e decides h =
    elim (Bool-cases (phrase_match n.literal (c_str w))) [
      | inr other ↦ let bad : scored 0 ≡ matched = rw (other, try_node) at h in cc
      | inl fits ↦
          elim ((try_word-Decides n (trymatch ns) (Derives ns) decides w ws n.literal argv).0
            (rw (fits, try_node) at h)) [
              | inl d ↦ taken (rw e fits) d
              | inr (opt, d) ↦ left_out (rw e fits) opt d
            ]
    ]
node_sound phrase n ns w ws argv e decides h = elim (Bool-cases n.opt) [
  | inl opt ↦
      let (front, rest, e', d) =
        try_phrase_sound n (trymatch ns) (Derives ns) decides w 0 (w ∷ ws) argv
          (rw (opt, try_node) at h) in
      joined e front rest e' (inl opt) d
  | inr needed ↦
      let (front, rest, e', d) =
        try_phrase_sound n (trymatch ns) (Derives ns) decides w 1 ws argv
          (rw (needed, try_node) at h) in
      joined e (w ∷ front) rest (ap (λ l. w ∷ l) e') (inr (λ no_words. cc)) d
]

word_complete :
    (n : Node) (ns : List Node) (w : Text) (ws : List Text)
    → n.node_type ≢ phrase
    → Derives (n ∷ ns) (w ∷ ws)
    → Takes n.node_type n w × (Derives ns ws ⊎ ((n.opt ≡ true) × Derives ns (w ∷ ws)))
word_complete n ns w ws no_phrase (taken fits d) = (fits, inl d)
word_complete n ns w ws no_phrase (left_out fits opt d) = (fits, inr (opt, d))
word_complete n ns w ws no_phrase (joined e front rest e' some_words d) = absurd (no_phrase e)

phrase_complete :
    (n : Node) (ns : List Node) (w : Text) (ws : List Text)
    → n.node_type ≡ phrase
    → Derives (n ∷ ns) (w ∷ ws)
    → (front rest : List Text) × (w ∷ ws ≡ front ++ rest)
      × ((n.opt ≡ true) ⊎ (front ≢ []))
      × Derives ns rest
phrase_complete n ns w ws is_phrase (taken fits d) =
    let never : ⊥ = subst (λ t. Takes t n w) is_phrase fits in absurd never
phrase_complete n ns w ws is_phrase (left_out fits opt d) =
    let never : ⊥ = subst (λ t. Takes t n w) is_phrase fits in absurd never
phrase_complete n ns w ws is_phrase (joined e front rest e' some_words d) =
    (front, rest, e', some_words, d)

-- A phrase that is needed takes the first word.
needed_phrase :
    (n : Node) (ns : List Node) (w : Text) (ws : List Text) (argv : Args) (front rest : List Text)
    → Decides (trymatch ns) (Derives ns)
    → front ≢ []
    → w ∷ ws ≡ front ++ rest
    → Derives ns rest
    → (try_phrase n (trymatch ns) w 1 ws argv).0 ≡ matched
needed_phrase n ns w ws argv [] rest decides some_words e d = absurd (some_words refl)
needed_phrase n ns w ws argv (y ∷ front) rest decides some_words e d =
    let tail : ws ≡ front ++ rest = cc in
    try_phrase_complete n (trymatch ns) (Derives ns) decides w 1 ws argv front rest tail d

node_complete :
    (t : NodeType) (n : Node) (ns : List Node) (w : Text) (ws : List Text) (argv : Args)
    → n.node_type ≡ t
    → Decides (trymatch ns) (Derives ns)
    → Derives (n ∷ ns) (w ∷ ws)
    → (try_node t n (trymatch ns) w ws argv).0 ≡ matched
unfolding try_node
node_complete word n ns w ws argv e decides d =
    let (fits, rest) = word_complete n ns w ws (λ p. cc) d in
    (try_word-Decides n (trymatch ns) (Derives ns) decides w ws (c_str w) argv).1 rest
node_complete literal n ns w ws argv e decides d =
    let (fits, rest) = word_complete n ns w ws (λ p. cc) d in
    let same : phrase_match n.literal (c_str w) ≡ true = subst (λ t. Takes t n w) e fits in
    rw (same, try_node)
      ((try_word-Decides n (trymatch ns) (Derives ns) decides w ws n.literal argv).1 rest)
node_complete phrase n ns w ws argv e decides d =
    let (front, rest, e', some_words, d') = phrase_complete n ns w ws e d in
    elim (Bool-cases n.opt) [
      | inl opt ↦
          rw (opt, try_node)
            (try_phrase_complete n (trymatch ns) (Derives ns) decides w 0 (w ∷ ws) argv front rest
              e' d')
      | inr needed ↦
          rw (needed, try_node)
            (needed_phrase n ns w ws argv front rest decides
              (elim some_words [ inl opt ↦ absurd (cc) | inr h ↦ h ]) e' d')
    ]

absent_inv : (n : Node) (ns : List Node) → Derives (n ∷ ns) [] → (n.opt ≡ true) × Derives ns []
absent_inv n ns (absent opt d) = (opt, d)

-- A format matches a line exactly where the line is one of its grammar, whatever the arguments hold.
pub trymatch-Derives :
    (ns : List Node) (words : List Text) (argv : Args)
    → ((trymatch ns words argv).0 ≡ matched) ↔ Derives ns words
unfolding trymatch
trymatch-Derives [] [] argv = (λ h. done, λ d. refl)
trymatch-Derives [] (w ∷ ws) argv = (λ h. cc, λ d. elim d [ ])
trymatch-Derives (n ∷ ns) [] argv = elim (Bool-cases n.opt) [
  | inl opt ↦ (
    λ h. absent opt ((trymatch-Derives ns [] argv).0 (rw (opt, trymatch) at h)),
    λ d. rw (opt, trymatch) ((trymatch-Derives ns [] argv).1 (absent_inv n ns d).1),
  )
  | inr needed ↦ (
    λ h. let bad : scored 0 ≡ matched = rw (needed, trymatch) at h in cc,
    λ d. let opt = (absent_inv n ns d).0 in absurd (cc),
  )
]
trymatch-Derives (n ∷ ns) (w ∷ ws) argv = (
  node_sound n.node_type n ns w ws argv refl (trymatch-Derives ns),
  node_complete n.node_type n ns w ws argv refl (trymatch-Derives ns),
)
