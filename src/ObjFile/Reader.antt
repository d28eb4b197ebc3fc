-- ===== src/ObjFile/Reader.antt =====
-- `readToken` of File::Reader. The flags of the stream only matter at its end, where each definition
-- writes out what the reads there give: the first byte read behind the end counts as 0xFF where it is
-- kept, and no loop over the stream goes on behind it but that over a comment.
use sourcemud.Base.{ℕ, ◌+◌, ◌%◌, ◌^◌, Bool, true, false, ◌||◌, Option, none, some, [], ◌∷◌, ◌++◌}
use sourcemud.Base.Tests.{◌==◌, if◌then◌else◌}
use sourcemud.Base.Text.{Text, codes, text_eq}
use sourcemud.Strings.Chars.{is_alpha, is_alnum, is_digit, is_space}
use sourcemud.Strings.Strip.{strip}
use sourcemud.ObjFile.Outcome.{Outcome, ok, thrown, endless, ◌>>=◌}

-- What is left of the file, and the number of the line.
pub record Reader : Type 0 where
  pub rest : Text
  pub line : ℕ

pub data Token : Type 0 where
  token_error token_eof token_string token_number token_true token_false token_begin token_end
        token_set token_key token_start_list token_end_list token_comma token_name :
      Token

abbrev pub next_line : ℕ → ℕ
next_line line = (line + 1) % 2 ^ 64

-- White space and comments, up to the first byte of a token; `true` inside a comment, which at the end
-- of the file waits for a newline for ever.
unfoldable pub scan : Bool → ℕ → Text → Outcome (Option ℕ × Reader)
scan false line [] = ok (none, record { rest = []; line = line })
scan true line [] = endless
scan false line (c ∷ cs) = elim (is_space c) [
  | true ↦ scan false (if c == b'\n' then next_line line else line) cs
  | false ↦ elim (c == b'#') [
    | true ↦ scan true line cs
    | false ↦ ok (some c, record { rest = cs; line = line })
  ]
]
scan true line (c ∷ cs) = elim (c == b'\n') [
  | true ↦ scan false (next_line line) cs
  | false ↦ scan true line cs
]

unfoldable pub symbol : ℕ → Option Token
symbol c =
    if c == b'{'
    then some token_begin
    else if c == b'}'
    then some token_end
    else if c == b'='
    then some token_set
    else if c == b'.'
    then some token_key
    else if c == b'['
    then some token_start_list
    else if c == b']'
    then some token_end_list
    else if c == b','
    then some token_comma
    else none

unfoldable pub unescape : ℕ → Option ℕ
unescape c =
    if c == b'n'
    then some b'\n'
    else if c == b't'
    then some b'\t'
    else if c == b'\\'
    then some b'\\'
    else if c == b'"'
    then some b'"'
    else none

-- One more byte in front of what was read.
abbrev pub push : ℕ → Outcome (Text × Text) → Outcome (Text × Text)
push c o = o >>= λ r. ok (c ∷ r.0, r.1)

-- The rest of a string and what stands behind it; `true` behind a backslash.
unfoldable pub read_string : Bool → Text → Outcome (Text × Text)
unfolding unescape
read_string false [] = ok (0xFF ∷ [], [])
read_string true [] = thrown (codes "Unknown escape code")
read_string false (c ∷ cs) = elim (c == b'"') [
  | true ↦ ok ([], cs)
  | false ↦ elim (c == b'\n') [
    | true ↦ thrown (codes "Line break in string")
    | false ↦ elim (c == b'\\') [
      | true ↦ read_string true cs
      | false ↦ push c (read_string false cs)
    ]
  ]
]
read_string true (c ∷ cs) = elim (unescape c) [
  | none ↦ thrown (codes "Unknown escape code")
  | some d ↦ push d (read_string false cs)
]

-- The bytes that pass a test, up to the first that does not.
unfoldable pub span : (ℕ → Bool) → Text → Text × Text
span test [] = ([], [])
span test (c ∷ cs) = elim (test c) [
  | true ↦ let s = span test cs in (c ∷ s.0, s.1)
  | false ↦ ([], c ∷ cs)
]

unfoldable pub is_name_char : ℕ → Bool
is_name_char c = is_alnum c || c == b'_'

unfoldable pub is_block_end : Text → Bool
is_block_end line = text_eq (strip line) (codes "%end")

abbrev pub more_text : Text → Text × Reader → Text × Reader
more_text text r = (text ++ r.0, r.1)

-- The lines of a block, `cur` being the start of one, up to that which ends it.
unfoldable pub read_block : Text → ℕ → Text → Text × Reader
unfolding is_block_end
read_block cur line [] = (
  if is_block_end (cur ++ (0xFF ∷ [])) then [] else cur ++ (0xFF ∷ []),
  record { rest = []; line = line },
)
read_block cur line (c ∷ cs) = elim (c == b'\n') [
  | false ↦ read_block (cur ++ (c ∷ [])) line cs
  | true ↦ elim (is_block_end (cur ++ (c ∷ []))) [
    | true ↦ ([], record { rest = cs; line = next_line line })
    | false ↦ more_text (cur ++ (c ∷ [])) (read_block [] (next_line line) cs)
  ]
]

-- White space up to the end of the line.
unfoldable pub end_of_line : ℕ → Text → Outcome Reader
end_of_line line [] = thrown (codes "Syntax error: garbage after <<[")
end_of_line line (c ∷ cs) = elim (c == b'\n') [
  | true ↦ ok (record { rest = cs; line = next_line line })
  | false ↦ elim (is_space c) [
    | true ↦ end_of_line line cs
    | false ↦ thrown (codes "Syntax error: garbage after <<[")
  ]
]

-- A token, with the text of a name, a number or a string, and the reader behind it.
pub record Lexeme : Type 0 where
  pub token : Token
  pub text : Text
  pub behind : Reader

abbrev pub lexeme : Token → Text → Text → ℕ → Outcome Lexeme
lexeme token text rest line =
    ok (record { token = token; text = text; behind = record { rest = rest; line = line } })

-- What follows a percent sign.
unfoldable pub read_begin : Text × Text → ℕ → Outcome Lexeme
unfolding end_of_line read_block
read_begin (name, rest) line =
    if text_eq name (codes "begin")
    then (end_of_line line rest >>= λ r.
        let block = read_block [] r.line r.rest in
        ok (record { token = token_string; text = block.0; behind = block.1 }))
    else thrown (codes "Syntax error: unknown symbol: " ++ name)

unfoldable pub name_token : Text → Token
name_token name =
    if text_eq name (codes "true")
    then token_true
    else if text_eq name (codes "false")
    then token_false
    else token_name

-- The rest of a word, for the text of an error.
unfoldable pub read_word : Text → Text
read_word [] = 0xFF ∷ []
read_word (c ∷ cs) = elim (is_space c) [ true ↦ [] | false ↦ c ∷ read_word cs ]

-- The token that begins with a byte that is no symbol.
unfoldable pub other_token : ℕ → Text → ℕ → Outcome Lexeme
unfolding read_string span is_name_char read_begin name_token read_word
other_token c rest line =
    if c == b'"'
    then (read_string false rest >>= λ s. lexeme token_string s.0 s.1 line)
    else if is_digit c || c == b'-'
    then (let s = span is_digit rest in lexeme token_number (c ∷ s.0) s.1 line)
    else if c == b'%'
    then read_begin (span is_name_char rest) line
    else if is_alpha c || c == b'_'
    then (let s = span is_name_char rest in lexeme (name_token (c ∷ s.0)) (c ∷ s.0) s.1 line)
    else thrown (codes "Syntax error: unknown symbol: " ++ (c ∷ read_word rest))

unfoldable pub token_from : Option ℕ × Reader → Outcome Lexeme
unfolding symbol other_token
token_from (none, r) = ok (record { token = token_eof; text = []; behind = r })
token_from (some c, r) = elim (symbol c) [
  | some token ↦ lexeme token [] r.rest r.line
  | none ↦ other_token c r.rest r.line
]

unfoldable pub read_token : Reader → Outcome Lexeme
unfolding scan token_from
read_token r = scan false r.line r.rest >>= token_from
