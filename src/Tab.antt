-- ===== src/Tab.antt =====
-- File::TabReader of src/mud/filetab.cc and include/mud/filetab.h.
use sourcemud.Base.{
  ℕ, suc, ◌+◌, ◌%◌, ◌^◌, Bool, true, false, not, ◌&&◌, ◌||◌, Option, none, some, List, [], ◌∷◌,
  ◌++◌,
}
use sourcemud.Base.Lists.{get_elem?}
use sourcemud.Base.Options.{◌>>=◌}
use sourcemud.Base.Tests.{◌==◌, if◌then◌else◌}
use sourcemud.Base.Text.{Text}
use sourcemud.Strings.Chars.{is_print, is_space}
pub mod Lines
pub mod Examples

pub data TabMode : Type 0 where
  in_space in_word in_quote in_comment : TabMode

-- The entries so far, the line, the words of the line, the word and the state of the scanner.
pub record TabScan : Type 0 where
  pub entries : List (ℕ × List Text)
  pub line : ℕ
  pub cent : List Text
  pub cword : Text
  pub mode : TabMode

abbrev pub none_yet : List Text → Bool
none_yet [] = true
none_yet (x ∷ xs) = false

-- The words of a line become an entry.
abbrev pub push_entry : TabScan → TabScan
push_entry s = record s { entries = s.entries ++ ((s.line, s.cent) ∷ []); cent = [] }

abbrev pub push_word : TabScan → TabScan
push_word s = record s { cent = s.cent ++ (s.cword ∷ []); cword = [] }

abbrev pub add_char : ℕ → TabScan → TabScan
add_char c s = record s { cword = s.cword ++ (c ∷ []) }

-- The next line, in white space.
abbrev pub next_row : TabScan → TabScan
next_row s = record s { line = (s.line + 1) % 2 ^ 64; mode = in_space }

abbrev pub push_some : TabScan → TabScan
push_some s = if none_yet s.cent then s else push_entry s

unfoldable pub tab_ws : ℕ → TabScan → TabScan
tab_ws c s =
    if c == b'\n'
    then next_row (push_some s)
    else if c == b'"'
    then record s { mode = in_quote }
    else if c == b'#'
    then record s { mode = in_comment }
    else if is_space c
    then s
    else record (add_char c s) { mode = in_word }

unfoldable pub tab_word : ℕ → TabScan → TabScan
tab_word c s =
    let t = (if is_space c || c == b'#' then push_word s else s) in
    if c == b'\n'
    then next_row (push_entry t)
    else if c == b'#'
    then record t { mode = in_comment }
    else if c == b'"'
    then record t { mode = in_quote }
    else if is_space c
    then record t { mode = in_space }
    else add_char c t

unfoldable pub tab_quote : ℕ → TabScan → TabScan
tab_quote c s =
    if c == b'\n'
    then next_row (push_entry (push_word s))
    else if c == b'"'
    then record s { mode = in_word }
    else add_char c s

unfoldable pub tab_comment : ℕ → TabScan → TabScan
tab_comment c s = if c == b'\n' then next_row (push_some s) else s

unfoldable pub tab_state : ℕ → TabScan → TabScan
unfolding tab_ws tab_word tab_quote tab_comment
tab_state c s = elim s.mode [
  | in_space ↦ tab_ws c s
  | in_word ↦ tab_word c s
  | in_quote ↦ tab_quote c s
  | in_comment ↦ tab_comment c s
]

-- One byte of the file; what cannot be printed is left out, but for newlines.
unfoldable pub tab_byte : ℕ → TabScan → TabScan
unfolding tab_state
tab_byte c s = if not (is_print c) && not (c == b'\n') then s else tab_state c s

unfoldable pub tab_bytes : Text → TabScan → TabScan
unfolding tab_byte
tab_bytes [] s = s
tab_bytes (c ∷ cs) s = tab_bytes cs (tab_byte c s)

-- What is done at the end of the file.
unfoldable pub tab_end : TabScan → List (ℕ × List Text)
tab_end s = elim s.mode [
  | in_space ↦ s.entries
  | in_word ↦ (push_some (push_word s)).entries
  | in_quote ↦ (push_some (push_word s)).entries
  | in_comment ↦ (push_some s).entries
]

-- `load`, of an open file.
unfoldable pub load_table : Text → List (ℕ × List Text)
unfolding tab_bytes tab_end
load_table file =
    tab_end
      (tab_bytes file (record { entries = []; line = 1; cent = []; cword = []; mode = in_space }))

-- `get`; none behind the last entry.
unfoldable pub get_cell : List (ℕ × List Text) → ℕ → ℕ → Option Text
get_cell entries line col = get_elem? entries line >>= λ e. elim (get_elem? e.1 col) [
  | none ↦ some []
  | some text ↦ some text
]
