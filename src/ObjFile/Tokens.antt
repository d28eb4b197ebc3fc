-- ===== src/ObjFile/Tokens.antt =====
-- The reader on what the writer writes: one token with any text behind it.
use mathlib.Core.List.{append_assoc}
use sourcemud.Base.{
  ℕ, zero, suc, ◌≡◌, ◌≢◌, refl, ap, ◌∙◌, Bool, true, false, ◌||◌, none, some, inl, inr, [], ◌∷◌,
  ◌++◌, arith,
}
use sourcemud.Base.Int.{ℤ}
use sourcemud.Base.Lists.{All}
use sourcemud.Base.Tests.{◌==◌, Bool-cases}
use sourcemud.Base.Text.{Text, codes, text_eq}
use sourcemud.Strings.Chars.{is_alpha, is_alnum, is_digit, is_space}
use sourcemud.Strings.Numbers.{tostr, tostr_shape}
use sourcemud.Strings.Split.{Lacks}
use sourcemud.ObjFile.Outcome.{ok, ◌>>=◌}
use sourcemud.ObjFile.Reader.{
  Reader, Token, token_string, token_number, token_true, token_false, scan, symbol, push,
  read_string, span, is_name_char, name_token, other_token, token_from, lexeme, read_token,
}
use sourcemud.ObjFile.Writer.{
  escape_char, escape, quote, all_name_chars, valid_name, spaces, bool_text,
}

abbrev pub at_line : Text → ℕ → Reader
at_line t line = record { rest = t; line = line }

pub scan-spaces : (k line : ℕ) (t : Text) → scan false line (spaces k ++ t) ≡ scan false line t
unfolding scan spaces is_space
scan-spaces zero line t = refl
scan-spaces (suc k) line t = scan-spaces k line t

pub read_token-spaces :
    (k line : ℕ) (t : Text)
    → read_token (at_line (spaces k ++ t) line) ≡ read_token (at_line t line)
unfolding read_token
read_token-spaces k line t = ap (λ o. o >>= token_from) (scan-spaces k line t)

-- A byte that no run of the test takes stands first.
abbrev pub Stops : (ℕ → Bool) → Text → Type 0
Stops test [] = Unit {0}
Stops test (c ∷ cs) = test c ≡ false

pub span_run :
    (test : ℕ → Bool) (p t : Text)
    → All (λ c. test c ≡ true) p
    → Stops test t
    → span test (p ++ t) ≡ (p, t)
unfolding span
span_run test [] [] all stops = refl
span_run test [] (c ∷ cs) all stops = rw stops refl
span_run test (c ∷ cs) t all stops = rw (all.0, span_run test cs t all.1 stops) refl

scan_at :
    (c line : ℕ) (t : Text)
    → is_space c ≡ false
    → (c == b'#') ≡ false
    → scan false line (c ∷ t) ≡ ok (some c, at_line t line)
unfolding scan
scan_at c line t space hash = rw (space, scan) (rw hash refl)

token_from-other :
    (c line : ℕ) (t : Text)
    → symbol c ≡ none
    → token_from (some c, at_line t line) ≡ other_token c t line
unfolding token_from
token_from-other c line t no_symbol = rw (no_symbol, token_from) refl

-- A byte that begins a token and no symbol.
pub read_token-other :
    (c line : ℕ) (t : Text)
    → is_space c ≡ false
    → (c == b'#') ≡ false
    → symbol c ≡ none
    → read_token (at_line (c ∷ t) line) ≡ other_token c t line
unfolding read_token
read_token-other c line t space hash no_symbol =
    ap (λ o. o >>= token_from) (scan_at c line t space hash) ∙ token_from-other c line t no_symbol

all_name_chars-All : (n : Text) → all_name_chars n ≡ true → All (λ c. is_name_char c ≡ true) n
unfolding all_name_chars is_name_char
all_name_chars-All [] h = tt
all_name_chars-All (c ∷ cs) h = (ground arith, all_name_chars-All cs (ground arith))

abbrev starts_name : ℕ → Bool
starts_name c = is_alpha c || c == b'_'

starts_name_plain :
    (c : ℕ)
    → starts_name c ≡ true
    → (is_space c ≡ false)
      × ((c == b'#') ≡ false)
      × (symbol c ≡ none)
      × ((c == b'"') ≡ false)
      × ((is_digit c || c == b'-') ≡ false)
      × ((c == b'%') ≡ false)
unfolding is_alpha is_space symbol is_digit
starts_name_plain c h =
    (ground arith, ground arith, ground arith, ground arith, ground arith, ground arith)

-- A name token, whatever stands behind it that is no part of a name.
pub read_token-valid_name :
    (n t : Text) (line : ℕ)
    → valid_name n ≡ true
    → Stops is_name_char t
    → read_token (at_line (n ++ t) line) ≡ lexeme (name_token n) n t line
unfolding valid_name
read_token-valid_name [] t line h stops = cc
read_token-valid_name (c ∷ cs) t line h stops =
    let first : starts_name c ≡ true = ground arith in
    let (space, hash, no_symbol, quotes, number, percent) = starts_name_plain c first in
    let all = all_name_chars-All (c ∷ cs) (ground arith) in
    read_token-other c line (cs ++ t) space hash no_symbol
    ∙ unfold other_token in
      rw (quotes, number, percent, first, span_run is_name_char cs t all.1 stops) refl

plain_step :
    (c : ℕ) (t : Text)
    → (c == b'\n') ≡ false
    → (c == b'\\') ≡ false
    → (c == b'"') ≡ false
    → read_string false (c ∷ t) ≡ push c (read_string false t)
unfolding read_string
plain_step c t newline back quotes = rw (quotes, read_string) (rw (newline, back) refl)

read_string_step :
    (c : ℕ) (t : Text)
    → c ≢ 0
    → read_string false (escape_char c ++ t) ≡ push c (read_string false t)
unfolding read_string escape_char
read_string_step c t some_byte = elim (Bool-cases (c == b'\t')) [
  | inl tab ↦ let same : c ≡ b'\t' = ground arith in rw same refl
  | inr no_tab ↦ elim (Bool-cases (c == b'\n')) [
    | inl newline ↦ let same : c ≡ b'\n' = ground arith in rw same refl
    | inr no_newline ↦ elim (Bool-cases (c == b'\\')) [
      | inl back ↦ let same : c ≡ b'\\' = ground arith in rw same refl
      | inr no_back ↦ elim (Bool-cases (c == b'"')) [
        | inl quotes ↦ let same : c ≡ b'"' = ground arith in rw same refl
        | inr no_quotes ↦
            let nul : (c == 0) ≡ false = ground arith in
            rw (no_tab, no_newline, no_back, no_quotes, nul)
              (plain_step c t no_newline no_back no_quotes)
      ]
    ]
  ]
]

read_string-escape :
    (s t : Text) → Lacks 0 s → read_string false (escape s ++ (b'"' ∷ t)) ≡ ok (s, t)
unfolding escape
read_string-escape [] t h = unfold read_string in refl
read_string-escape (c ∷ cs) t h =
    ap (read_string false) (append_assoc (escape_char c) (escape cs) (b'"' ∷ t))
    ∙ read_string_step c (escape cs ++ (b'"' ∷ t)) h.0
    ∙ ap (push c) (read_string-escape cs t h.1)

-- A string.
pub read_token-quote :
    (s t : Text) (line : ℕ)
    → Lacks 0 s
    → read_token (at_line (quote s ++ t) line) ≡ lexeme token_string s t line
unfolding quote
read_token-quote s t line h =
    read_token-other b'"' line ((escape s ++ (b'"' ∷ [])) ++ t) (unfold is_space in refl) refl
      (unfold symbol in refl)
    ∙ unfold other_token in
      ap (λ o. o >>= (λ r. lexeme token_string r.0 r.1 line))
        (ap (read_string false) (append_assoc (escape s) (b'"' ∷ []) t) ∙ read_string-escape s t h)

number_plain :
    (c : ℕ)
    → (is_digit c || c == b'-') ≡ true
    → (is_space c ≡ false) × ((c == b'#') ≡ false) × (symbol c ≡ none) × ((c == b'"') ≡ false)
unfolding is_space symbol is_digit
number_plain c h = (ground arith, ground arith, ground arith, ground arith)

-- A number, with nothing behind it that is a digit.
pub read_token-tostr :
    (n : ℤ) (t : Text) (line : ℕ)
    → Stops is_digit t
    → read_token (at_line (tostr n ++ t) line) ≡ lexeme token_number (tostr n) t line
read_token-tostr n t line stops =
    let (c, cs, e, first, all) = tostr_shape n in
    let (space, hash, no_symbol, quotes) = number_plain c first in
    rw e (
      read_token-other c line (cs ++ t) space hash no_symbol
      ∙ unfold other_token in rw (quotes, first, span_run is_digit cs t all stops) refl)

abbrev pub bool_token : Bool → Token
bool_token true = token_true
bool_token false = token_false

pub read_token-bool_text :
    (b : Bool) (t : Text) (line : ℕ)
    → Stops is_name_char t
    → read_token (at_line (bool_text b ++ t) line) ≡ lexeme (bool_token b) (bool_text b) t line
read_token-bool_text true t line stops =
    read_token-valid_name (codes "true") t line (unfold valid_name is_alpha is_alnum in refl) stops
    ∙ unfold name_token text_eq in refl
read_token-bool_text false t line stops =
    read_token-valid_name (codes "false") t line (unfold valid_name is_alpha is_alnum in refl) stops
    ∙ unfold name_token text_eq in refl
