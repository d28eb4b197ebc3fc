-- ===== src/Command/Words/Split.antt =====
-- How many words a command line may have.
use mathlib.Core.List.{append_assoc}
use sourcemud.Base.{
  ℕ, zero, suc, ◌+◌, ◌≤◌, ◌<◌, ◌≡◌, ◌∙◌, refl, ap, true, false, none, some, List, [], ◌∷◌, ◌++◌,
  map, arith,
}
use sourcemud.Base.Lists.{length, All, take}
use sourcemud.Base.Options.{◌>>=◌}
use sourcemud.Base.Tests.{ltb, ◌==◌}
use sourcemud.Base.Text.{Text}
use sourcemud.Strings.Split.{Lacks}
use sourcemud.Strings.Chars.{c_str}
use sourcemud.Command.Words.{is_separator, cut, last_word, split_from, split_words}

-- A line of words with one space behind each of them.
unfoldable pub spaced : List Text → Text
spaced [] = []
spaced (w ∷ ws) = w ++ (b' ' ∷ spaced ws)

-- A word of a command line: no separator, and at least one character.
abbrev pub IsToken : Text → Type 0
IsToken [] = ⊥
IsToken (c ∷ cs) = (is_separator c ≡ false) × All (λ d. is_separator d ≡ false) cs

-- The search passes over a word.
split_run :
    (windex : ℕ) (lptr : Text) (seen : ℕ) (p rest : Text)
    → ltb windex 25 ≡ true
    → All (λ d. is_separator d ≡ false) p
    → split_from windex lptr seen (p ++ rest) ≡ split_from windex lptr (length p + seen) rest
unfolding split_from
split_run windex lptr seen [] rest room h = ap (λ n. split_from windex lptr n rest) (omega arith)
split_run windex lptr seen (c ∷ p) rest room h =
    rw (room, h.0, split_from)
      (split_run windex lptr (suc seen) p rest room h.1
        ∙ ap (λ n. split_from windex lptr n rest) (omega arith))

at_space :
    (windex : ℕ) (lptr : Text) (seen : ℕ) (rest : Text)
    → ltb windex 25 ≡ true
    → split_from windex lptr (suc seen) (b' ' ∷ rest)
      ≡ split_from (suc windex) rest 0 rest >>= (λ ws. some (cut lptr ∷ ws))
unfolding split_from is_separator
at_space windex lptr seen rest room = rw (room, split_from) refl

-- A word with a space behind it is one more word.
split_token :
    (windex : ℕ) (w rest : Text)
    → ltb windex 25 ≡ true
    → IsToken w
    → split_from windex (w ++ (b' ' ∷ rest)) 0 (w ++ (b' ' ∷ rest))
      ≡ split_from (suc windex) rest 0 rest >>= (λ ws. some (cut (w ++ (b' ' ∷ rest)) ∷ ws))
split_token windex [] rest room h = absurd h
split_token windex (c ∷ w) rest room h =
    split_run windex (c ∷ (w ++ (b' ' ∷ rest))) 0 (c ∷ w) (b' ' ∷ rest) room h
    ∙ ap (λ n. split_from windex (c ∷ (w ++ (b' ' ∷ rest))) n (b' ' ∷ rest)) (omega arith)
    ∙ at_space windex (c ∷ (w ++ (b' ' ∷ rest))) (length w) rest room

-- A line of as many words as there is room for, with anything behind them.
split_full :
    (windex : ℕ) (ws : List Text) (c : ℕ) (rest : Text)
    → windex + length ws ≡ 25
    → All IsToken ws
    → split_from windex (spaced ws ++ (c ∷ rest)) 0 (spaced ws ++ (c ∷ rest)) ≡ none
unfolding spaced
split_full windex [] c rest full h =
    let at_end : ltb windex 25 ≡ false = ground arith in
    let last : (windex == 25) ≡ true = ground arith in
    unfold split_from last_word in rw (at_end, last, split_from) refl
split_full windex (w ∷ ws) c rest full h =
    let line = spaced ws ++ (c ∷ rest) in
    ap (λ l. split_from windex l 0 l) (append_assoc w (b' ' ∷ spaced ws) (c ∷ rest))
    ∙ split_token windex w line (ground arith) h.0
    ∙ ap (λ o. o >>= (λ us. some (cut (w ++ (b' ' ∷ line)) ∷ us)))
        (split_full (suc windex) ws c rest (omega arith) h.1)

-- The pointers to the words of a line.
pointers : List Text → List Text
unfolding spaced
pointers [] = []
pointers (w ∷ ws) = cut (spaced (w ∷ ws)) ∷ pointers ws

split_spaced :
    (windex : ℕ) (ws : List Text)
    → windex + length ws ≤ 25
    → All IsToken ws
    → split_from windex (spaced ws) 0 (spaced ws) ≡ some (pointers ws)
unfolding spaced pointers
split_spaced windex [] le h = unfold split_from last_word in refl
split_spaced windex (w ∷ ws) le h =
    split_token windex w (spaced ws) (ground arith) h.0
    ∙ ap (λ o. o >>= (λ us. some (cut (w ++ (b' ' ∷ spaced ws)) ∷ us)))
        (split_spaced (suc windex) ws (omega arith) h.1)

-- A word reads as itself at its pointer.
c_str-cut :
    (p rest : Text)
    → All (λ d. is_separator d ≡ false) p
    → Lacks 0 p
    → c_str (cut (p ++ (b' ' ∷ rest))) ≡ p
unfolding cut c_str
c_str-cut [] rest h k = unfold is_separator in refl
c_str-cut (c ∷ p) rest h k = ground (arith, h.0, k.0, c_str-cut p rest h.1 k.1)

map-c_str-pointers :
    (ws : List Text) → All IsToken ws → All (Lacks 0) ws → map c_str (pointers ws) ≡ ws
unfolding pointers spaced
map-c_str-pointers [] h k = refl
map-c_str-pointers ([] ∷ ws) h k = absurd h.0
map-c_str-pointers ((c ∷ w) ∷ ws) h k =
    ap (λ l. l ∷ map c_str (pointers ws)) (c_str-cut (c ∷ w) (spaced ws) h.0 k.0)
    ∙ ap (λ l. (c ∷ w) ∷ l) (map-c_str-pointers ws h.1 k.1)

take_all : (n : ℕ) (s : Text) → length s ≤ n → take n s ≡ s
take_all zero [] le = refl
take_all zero (c ∷ s) le = absurd (omega arith)
take_all (suc n) [] le = refl
take_all (suc n) (c ∷ s) le = ap (λ l. c ∷ l) (take_all n s (omega arith))

take_behind :
    (n : ℕ) (xs : Text) (c : ℕ) (rest : Text)
    → length xs < n
    → (rest' : Text) × (take n (xs ++ (c ∷ rest)) ≡ xs ++ (c ∷ rest'))
take_behind zero xs c rest lt = absurd (omega arith)
take_behind (suc n) [] c rest lt = (take n rest, refl)
take_behind (suc n) (x ∷ xs) c rest lt =
    let (rest', e) = take_behind n xs c rest (omega arith) in (rest', ap (λ l. x ∷ l) e)

-- A line of at most 25 words with a space behind each, that fits the buffer, is split into these words.
pub split_words-spaced :
    (ws : List Text)
    → length ws ≤ 25
    → length (spaced ws) ≤ 1023
    → All IsToken ws
    → All (Lacks 0) ws
    → (ps : List Text) × (split_words (spaced ws) ≡ some ps) × (map c_str ps ≡ ws)
unfolding split_words
split_words-spaced ws le room h k = (
  pointers ws,
  ap (λ l. split_from 0 l 0 l) (take_all 1023 (spaced ws) room) ∙ split_spaced 0 ws (omega arith) h,
  map-c_str-pointers ws h k,
)

-- A line of 25 words with a space behind each, that leave room in the buffer, and of anything more is a
-- fault: a NULL is written behind the array of pointers.
pub split_words_fault :
    (ws : List Text) (c : ℕ) (rest : Text)
    → length ws ≡ 25
    → length (spaced ws) < 1023
    → All IsToken ws
    → split_words (spaced ws ++ (c ∷ rest)) ≡ none
unfolding split_words
split_words_fault ws c rest full room h =
    let (rest', e) = take_behind 1023 (spaced ws) c rest room in
    ap (λ l. split_from 0 l 0 l) e ∙ split_full 0 ws c rest' (omega arith) h
