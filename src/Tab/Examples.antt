-- ===== src/Tab/Examples.antt =====
-- Runs on tables.
use sourcemud.Base.{◌≡◌, refl, List, [], ◌∷◌, arith}
use sourcemud.Base.Text.{Text, codes}
use sourcemud.Strings.Chars.{is_print, is_space}
use sourcemud.Tab.{load_table}
use sourcemud.Tab.Lines.{table_text, numbered, load_table-table_text}

abbrev two_rows : List (List Text)
two_rows = (codes "a b" ∷ codes "" ∷ []) ∷ [] ∷ (codes "c" ∷ []) ∷ []

load_table-table_text_example : load_table (table_text two_rows) ≡ numbered 1 two_rows
load_table-table_text_example = load_table-table_text two_rows (unfold is_print in ground arith)

-- A last line without a newline is lost when a space ends it.
load_table_unterminated : load_table (codes "a b ") ≡ []
unfolding load_table is_print is_space
load_table_unterminated = refl

-- A tab does not separate words.
load_table_tab : load_table (codes "a\tb\n") ≡ (1, codes "ab" ∷ []) ∷ []
unfolding load_table is_print is_space
load_table_tab = refl
