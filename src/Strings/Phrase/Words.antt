-- ===== src/Strings/Phrase/Words.antt =====
-- Phrases of words with one space between.
use mathlib.Core.List.{append_assoc, append-nil}
use sourcemud.Base.{
  ℕ, zero, suc, ◌≤◌, ◌≡◌, ◌↔◌, ◌∙◌, refl, ap, true, false, inl, inr, List, [], ◌∷◌, ◌++◌, arith,
}
use sourcemud.Base.Lists.{length, All, length-append}
use sourcemud.Base.Tests.{Bool-cases}
use sourcemud.Base.Text.{Text}
use sourcemud.Strings.Chars.{is_space, to_lower, case_eq_n}
use sourcemud.Strings.Split.{implode, append_with}
use sourcemud.Strings.Phrase.{
  skip_spaces, chunks_from, chunks_of, words_from, begins, find_chunks, match_chunks, phrase_match,
}

-- Every chunk begins a word of its own, in the order of the words.
pub data Picks : List Text → List Text → Type 0 where
  picked : (words : List Text) → Picks [] words
  pick :
      {chunk word : Text} {chunks words : List Text}
      → begins chunk word ≡ true
      → Picks chunks words
      → Picks (chunk ∷ chunks) (word ∷ words)
  pass : {word : Text} {chunks words : List Text} → Picks chunks words → Picks chunks (word ∷ words)

Picks-tail :
    (chunk : Text) (chunks words : List Text) → Picks (chunk ∷ chunks) words → Picks chunks words
Picks-tail chunk chunks [] p = elim p [ ]
Picks-tail chunk chunks (word ∷ words) (pick b p) = pass p
Picks-tail chunk chunks (word ∷ words) (pass p) = pass (Picks-tail chunk chunks words p)

find_chunks-Picks :
    (chunks words : List Text) → find_chunks chunks words ≡ true → Picks chunks words
unfolding find_chunks
find_chunks-Picks [] words h = picked words
find_chunks-Picks (chunk ∷ chunks) [] h = cc
find_chunks-Picks (chunk ∷ chunks) (word ∷ words) h = elim (Bool-cases (begins chunk word)) [
  | inl here ↦ pick here (find_chunks-Picks chunks words (rw (here, find_chunks) at h))
  | inr later ↦ pass (find_chunks-Picks (chunk ∷ chunks) words (rw (later, find_chunks) at h))
]

Picks-find_chunks :
    (chunks words : List Text) → Picks chunks words → find_chunks chunks words ≡ true
unfolding find_chunks
Picks-find_chunks [] words p = refl
Picks-find_chunks (chunk ∷ chunks) [] p = elim p [ ]
Picks-find_chunks (chunk ∷ chunks) (word ∷ words) (pick b p) =
    rw (b, find_chunks) (Picks-find_chunks chunks words p)
Picks-find_chunks (chunk ∷ chunks) (word ∷ words) (pass p) = elim (Bool-cases (begins chunk word)) [
  | inl here ↦
      rw (here, find_chunks) (Picks-find_chunks chunks words (Picks-tail chunk chunks words p))
  | inr later ↦ rw (later, find_chunks) (Picks-find_chunks (chunk ∷ chunks) words p)
]

-- A word: no space, and at least one character.
abbrev pub IsWord : Text → Type 0
IsWord [] = ⊥
IsWord (c ∷ cs) = (is_space c ≡ false) × All (λ d. is_space d ≡ false) cs

words_run :
    (word cs rest : Text)
    → All (λ d. is_space d ≡ false) cs
    → words_from word [] (cs ++ rest) ≡ words_from (word ++ cs) [] rest
unfolding words_from
words_run word [] rest h = rw append-nil refl
words_run word (c ∷ cs) rest h =
    rw (h.0, words_from)
      (words_run (word ++ (c ∷ [])) cs rest h.1
        ∙ ap (λ w. words_from w [] rest) (append_assoc word (c ∷ []) cs))

words_rest :
    (word : Text) (ps : List Text)
    → All IsWord ps
    → words_from word [] (append_with b' ' ps) ≡ word ∷ ps
unfolding words_from append_with is_space
words_rest word [] h = rw append-nil refl
words_rest word ([] ∷ ps) h = absurd h.0
words_rest word ((c ∷ cs) ∷ ps) h =
    let ((solid, run), all) = h in
    rw (solid, words_from)
      (ap (λ l. word ∷ l)
        (words_run (c ∷ []) cs (append_with b' ' ps) run ∙ words_rest (c ∷ cs) ps all))

chunks_run :
    (left : ℕ) (word cs rest : Text)
    → All (λ d. is_space d ≡ false) cs
    → chunks_from left word [] (cs ++ rest) ≡ chunks_from left (word ++ cs) [] rest
unfolding chunks_from
chunks_run left word [] rest h = rw append-nil refl
chunks_run zero word (c ∷ cs) rest h =
    rw (h.0, chunks_from)
      (chunks_run zero (word ++ (c ∷ [])) cs rest h.1
        ∙ ap (λ w. chunks_from zero w [] rest) (append_assoc word (c ∷ []) cs))
chunks_run (suc left) word (c ∷ cs) rest h =
    rw (h.0, chunks_from)
      (chunks_run (suc left) (word ++ (c ∷ [])) cs rest h.1
        ∙ ap (λ w. chunks_from (suc left) w [] rest) (append_assoc word (c ∷ []) cs))

chunks_rest :
    (left : ℕ) (word : Text) (ps : List Text)
    → All IsWord ps
    → length ps ≤ left
    → chunks_from left word [] (append_with b' ' ps) ≡ word ∷ ps
unfolding chunks_from append_with is_space
chunks_rest left word [] h le = rw append-nil refl
chunks_rest left word ([] ∷ ps) h le = absurd h.0
chunks_rest zero word ((c ∷ cs) ∷ ps) h le = absurd (omega arith)
chunks_rest (suc left) word ((c ∷ cs) ∷ ps) h le =
    let ((solid, run), all) = h in
    rw (solid, chunks_from)
      (ap (λ l. word ∷ l)
        (chunks_run left (c ∷ []) cs (append_with b' ' ps) run
          ∙ chunks_rest left (c ∷ cs) ps all (omega arith)))

-- What the two texts come to.
words_of_name :
    (w : Text) (ws : List Text)
    → All IsWord (w ∷ ws)
    → words_from [] [] (implode (w ∷ ws) b' ') ≡ w ∷ ws
unfolding implode words_from
words_of_name [] ws h = absurd h.0
words_of_name (c ∷ cs) ws h =
    let ((solid, run), all) = h in
    rw (solid, words_from)
      (words_run (c ∷ []) cs (append_with b' ' ws) run ∙ words_rest (c ∷ cs) ws all)

chunks_of_phrase :
    (t : Text) (ts : List Text)
    → All IsWord (t ∷ ts)
    → length ts ≤ 4
    → chunks_of (skip_spaces (implode (t ∷ ts) b' ')) ≡ t ∷ ts
unfolding implode chunks_of skip_spaces
chunks_of_phrase [] ts h le = absurd h.0
chunks_of_phrase (c ∷ cs) ts h le =
    let ((solid, run), all) = h in
    rw (solid, skip_spaces)
      (chunks_run 4 (c ∷ []) cs (append_with b' ' ts) run ∙ chunks_rest 4 (c ∷ cs) ts all le)

phrase_match_name :
    (w : Text) (ws : List Text) (test : Text)
    → All IsWord (w ∷ ws)
    → phrase_match (implode (w ∷ ws) b' ') test
      ≡ match_chunks (implode (w ∷ ws) b' ') (chunks_of (skip_spaces test))
unfolding implode phrase_match
phrase_match_name [] ws test h = absurd h.0
phrase_match_name (c ∷ cs) ws test h = refl

-- Between texts of words with one space between, the second of at most five words, `phraseMatch` holds
-- exactly where each word of the second begins, in either case, a word of the first, in the same
-- order.
pub phrase_match_iff :
    (w t : Text) (ws ts : List Text)
    → All IsWord (w ∷ ws)
    → All IsWord (t ∷ ts)
    → length ts ≤ 4
    → (phrase_match (implode (w ∷ ws) b' ') (implode (t ∷ ts) b' ') ≡ true)
      ↔ Picks (t ∷ ts) (w ∷ ws)
unfolding match_chunks
phrase_match_iff w t ws ts hw ht le =
    rw
      (
        phrase_match_name w ws (implode (t ∷ ts) b' ') hw,
        chunks_of_phrase t ts ht le,
        match_chunks,
        words_of_name w ws hw,
      )
      (find_chunks-Picks (t ∷ ts) (w ∷ ws), Picks-find_chunks (t ∷ ts) (w ∷ ws))

solid_start :
    (t w : Text)
    → All (λ d. is_space d ≡ false) w
    → case_eq_n (suc (length t)) w (t ++ (b' ' ∷ [])) ≡ false
unfolding case_eq_n to_lower is_space
solid_start [] [] h = refl
solid_start [] (x ∷ w) h = ground (arith, h.0)
solid_start (y ∷ t) [] h = refl
solid_start (y ∷ t) (x ∷ w) h = ground (arith, solid_start t w h.1)

begins_solid : (t w : Text) → IsWord w → begins (t ++ (b' ' ∷ [])) w ≡ false
unfolding begins
begins_solid t [] h = absurd h
begins_solid t (c ∷ cs) h =
    let size : length (t ++ (b' ' ∷ [])) ≡ suc (length t) =
      omega (arith, length-append t (b' ' ∷ [])) in
    rw size (ground (arith, solid_start t (c ∷ cs) h))

find_chunks_solid :
    (t : Text) (ws : List Text) → All IsWord ws → find_chunks ((t ++ (b' ' ∷ [])) ∷ []) ws ≡ false
unfolding find_chunks
find_chunks_solid t [] h = refl
find_chunks_solid t (w ∷ ws) h = rw (begins_solid t w h.0, find_chunks) (find_chunks_solid t ws h.1)

trailing_chunk :
    (c : ℕ) (cs : Text)
    → is_space c ≡ false
    → All (λ d. is_space d ≡ false) cs
    → chunks_of (skip_spaces (c ∷ (cs ++ (b' ' ∷ [])))) ≡ (c ∷ (cs ++ (b' ' ∷ []))) ∷ []
unfolding chunks_of skip_spaces
trailing_chunk c cs solid run =
    rw (solid, skip_spaces)
      (chunks_run 4 (c ∷ []) cs (b' ' ∷ []) run ∙ unfold chunks_from is_space in refl)

-- One word with a space behind it is found in no name of words, since the space is part of its chunk.
pub phrase_match_trailing :
    (w t : Text) (ws : List Text)
    → All IsWord (w ∷ ws)
    → IsWord t
    → phrase_match (implode (w ∷ ws) b' ') (t ++ (b' ' ∷ [])) ≡ false
unfolding match_chunks
phrase_match_trailing w [] ws hw ht = absurd ht
phrase_match_trailing w (c ∷ cs) ws hw ht =
    let (solid, run) = ht in
    phrase_match_name w ws ((c ∷ cs) ++ (b' ' ∷ [])) hw
    ∙ ap (match_chunks (implode (w ∷ ws) b' ')) (trailing_chunk c cs solid run)
    ∙ ap (find_chunks ((c ∷ (cs ++ (b' ' ∷ []))) ∷ [])) (words_of_name w ws hw)
    ∙ find_chunks_solid (c ∷ cs) (w ∷ ws) hw
