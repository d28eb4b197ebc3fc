-- ===== src/Tab/Lines.antt =====
-- `load` of File::TabReader on a table whose words are quoted.
use mathlib.Core.List.{append_assoc, append-nil}
use sourcemud.Base.{
  ℕ, ◌+◌, ◌%◌, ◌^◌, ◌≡◌, ◌≢◌, refl, ap, ◌∙◌, sym, true, List, [], ◌∷◌, ◌++◌, arith,
}
use sourcemud.Base.Lists.{All}
use sourcemud.Base.Text.{Text}
use sourcemud.Strings.Chars.{is_print, is_space}
use sourcemud.Tab.{
  TabMode, in_space, in_quote, TabScan, push_some, next_row, tab_ws, tab_word, tab_quote, tab_state,
  tab_byte, tab_bytes, tab_end, load_table,
}

-- A word that can stand in quotes: what can be printed, and no quote.
abbrev pub IsCell : Text → Type 0
IsCell w = All (λ c. (is_print c ≡ true) × (c ≢ b'"')) w

-- A line of quoted words, a space behind each.
abbrev pub row_text : List Text → Text → Text
row_text [] rest = b'\n' ∷ rest
row_text (w ∷ more) rest = b'"' ∷ (w ++ (b'"' ∷ b' ' ∷ row_text more rest))

abbrev pub table_text : List (List Text) → Text
table_text [] = []
table_text (r ∷ rs) = row_text r (table_text rs)

abbrev next_number : ℕ → ℕ
next_number line = (line + 1) % 2 ^ 64

-- The rows that are not empty, with the numbers of their lines.
abbrev pub numbered : ℕ → List (List Text) → List (ℕ × List Text)
numbered line [] = []
numbered line ([] ∷ rs) = numbered (next_number line) rs
numbered line ((w ∷ more) ∷ rs) = (line, w ∷ more) ∷ numbered (next_number line) rs

abbrev scan_at : List (ℕ × List Text) → ℕ → List Text → Text → TabMode → TabScan
scan_at entries line cent cword mode = record {
  entries = entries;
  line = line;
  cent = cent;
  cword = cword;
  mode = mode;
}

tab_byte-quote :
    (c line : ℕ) (e : List (ℕ × List Text)) (cent : List Text) (cword : Text)
    → is_print c ≡ true
    → c ≢ b'"'
    → tab_byte c (scan_at e line cent cword in_quote)
      ≡ scan_at e line cent (cword ++ (c ∷ [])) in_quote
unfolding tab_byte tab_state tab_quote is_print
tab_byte-quote c line e cent cword h k = ground arith

tab_bytes-quote :
    (w rest : Text) (line : ℕ) (e : List (ℕ × List Text)) (cent : List Text) (cword : Text)
    → IsCell w
    → tab_bytes (w ++ rest) (scan_at e line cent cword in_quote)
      ≡ tab_bytes rest (scan_at e line cent (cword ++ w) in_quote)
unfolding tab_bytes
tab_bytes-quote [] rest line e cent cword h =
    ap (λ u. tab_bytes rest (scan_at e line cent u in_quote)) (sym (append-nil cword))
tab_bytes-quote (c ∷ cs) rest line e cent cword h =
    ap (tab_bytes (cs ++ rest)) (tab_byte-quote c line e cent cword h.0.0 h.0.1)
    ∙ tab_bytes-quote cs rest line e cent (cword ++ (c ∷ [])) h.1
    ∙ ap (λ u. tab_bytes rest (scan_at e line cent u in_quote)) (append_assoc cword (c ∷ []) cs)

tab_bytes-row_text :
    (r : List Text) (rest : Text) (line : ℕ) (e : List (ℕ × List Text)) (cent : List Text)
    → All IsCell r
    → tab_bytes (row_text r rest) (scan_at e line cent [] in_space)
      ≡ tab_bytes rest (next_row (push_some (scan_at e line (cent ++ r) [] in_space)))
unfolding tab_bytes tab_byte tab_state tab_ws tab_word tab_quote is_print is_space
tab_bytes-row_text [] rest line e cent h =
    ap (λ u. tab_bytes rest (next_row (push_some (scan_at e line u [] in_space))))
      (sym (append-nil cent))
tab_bytes-row_text (w ∷ r) rest line e cent h =
    tab_bytes-quote w (b'"' ∷ b' ' ∷ row_text r rest) line e cent [] h.0
    ∙ tab_bytes-row_text r rest line e (cent ++ (w ∷ [])) h.1
    ∙ ap (λ u. tab_bytes rest (next_row (push_some (scan_at e line u [] in_space))))
        (append_assoc cent (w ∷ []) r)

tab_bytes-table_text :
    (rs : List (List Text)) (line : ℕ) (e : List (ℕ × List Text))
    → All (All IsCell) rs
    → (line' : ℕ) × (tab_bytes (table_text rs) (scan_at e line [] [] in_space)
        ≡ scan_at (e ++ numbered line rs) line' [] [] in_space)
tab_bytes-table_text [] line e h =
    (line, unfold tab_bytes in ap (λ u. scan_at u line [] [] in_space) (sym (append-nil e)))
tab_bytes-table_text ([] ∷ rs) line e h =
    let (line', same) = tab_bytes-table_text rs (next_number line) e h.1 in
    (line', tab_bytes-row_text [] (table_text rs) line e [] h.0 ∙ same)
tab_bytes-table_text ((w ∷ r) ∷ rs) line e h =
    let (line', same) =
      tab_bytes-table_text rs (next_number line) (e ++ ((line, w ∷ r) ∷ [])) h.1 in
    (
      line',
      tab_bytes-row_text (w ∷ r) (table_text rs) line e [] h.0
          ∙ same
          ∙ ap (λ u. scan_at u line' [] [] in_space)
              (append_assoc e ((line, w ∷ r) ∷ []) (numbered (next_number line) rs)),
    )

-- A table whose words are quoted, each with a space behind it, a row a line, and hold only what can be
-- printed and no quotes, is loaded as its rows that are not empty, with the numbers of their lines.
pub load_table-table_text :
    (rs : List (List Text)) → All (All IsCell) rs → load_table (table_text rs) ≡ numbered 1 rs
unfolding load_table tab_end
load_table-table_text rs h = let (line', same) = tab_bytes-table_text rs 1 [] h in rw same refl
