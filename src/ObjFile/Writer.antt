-- ===== src/ObjFile/Writer.antt =====
-- File::Writer, with `validName` and the escapes of strings. The stream is open and takes all that is
-- written; a call that only logs an error writes nothing.
use sourcemud.Base.{
  ℕ, zero, suc, ◌+◌, ◌%◌, ◌^◌, ◌-◌, Bool, true, false, ◌&&◌, ◌||◌, List, [], ◌∷◌, ◌++◌,
}
use sourcemud.Base.Int.{ℤ}
use sourcemud.Base.Tests.{◌==◌, if◌then◌else◌}
use sourcemud.Base.Text.{Text, codes}
use sourcemud.Strings.Chars.{is_alpha, is_alnum}
use sourcemud.Strings.Numbers.{tostr}
use sourcemud.ObjFile.Nodes.{
  Element, no_element, nested_list, string_element, int_element, bool_element,
}

pub record Writer : Type 0 where
  pub out : Text
  pub indent : ℕ

-- `EscapeString`
unfoldable pub escape_char : ℕ → Text
escape_char c =
    if c == b'\t'
    then codes "\\t"
    else if c == b'\n'
    then codes "\\n"
    else if c == b'\\'
    then codes "\\\\"
    else if c == b'"'
    then codes "\\\""
    else if c == 0
    then []
    else c ∷ []

unfoldable pub escape : Text → Text
unfolding escape_char
escape [] = []
escape (c ∷ cs) = escape_char c ++ escape cs

unfoldable pub quote : Text → Text
unfolding escape
quote text = b'"' ∷ (escape text ++ (b'"' ∷ []))

unfoldable pub all_name_chars : Text → Bool
all_name_chars [] = true
all_name_chars (c ∷ cs) = (is_alnum c || c == b'_') && all_name_chars cs

unfoldable pub valid_name : Text → Bool
unfolding all_name_chars
valid_name [] = false
valid_name (c ∷ cs) = (is_alpha c || c == b'_') && all_name_chars (c ∷ cs)

-- What `doIndent` writes.
unfoldable pub spaces : ℕ → Text
spaces zero = []
spaces (suc n) = b' ' ∷ b' ' ∷ spaces n

abbrev pub put : Text → Writer → Writer
put text w = record w { out = w.out ++ text }

abbrev pub do_indent : Writer → Writer
do_indent w = put (spaces w.indent) w

-- A line, if its names are valid.
abbrev pub named : Text → Text → (Writer → Writer) → Writer → Writer
named ns name f w = if valid_name ns && valid_name name then f w else w

abbrev pub key : Text → Text → Text
key ns name = ns ++ (b'.' ∷ name)

abbrev pub attr_line : Text → Text → Text → Text
attr_line ns name value = key ns name ++ (codes " = " ++ (value ++ (b'\n' ∷ [])))

unfoldable pub attr : Text → Text → Text → Writer → Writer
unfolding valid_name spaces quote
attr ns name text = named ns name (λ w. put (attr_line ns name (quote text)) (do_indent w))

unfoldable pub attr_long : Text → Text → ℤ → Writer → Writer
unfolding valid_name spaces
attr_long ns name n = named ns name (λ w. put (attr_line ns name (tostr n)) (do_indent w))

abbrev pub bool_text : Bool → Text
bool_text true = codes "true"
bool_text false = codes "false"

unfoldable pub attr_bool : Text → Text → Bool → Writer → Writer
unfolding valid_name spaces
attr_bool ns name b = named ns name (λ w. put (attr_line ns name (bool_text b)) (do_indent w))

unfoldable pub element_text : Element → Text
unfolding quote
element_text no_element = codes "\"\""
element_text nested_list = codes "\"\""
element_text (string_element text) = quote text
element_text (int_element text) = text
element_text (bool_element text) = text

-- The elements behind the first.
unfoldable pub more_elements : List Element → Text
unfolding element_text
more_elements [] = []
more_elements (x ∷ xs) = codes ", " ++ (element_text x ++ more_elements xs)

unfoldable pub elements_text : List Element → Text
unfolding element_text more_elements
elements_text [] = []
elements_text (x ∷ xs) = element_text x ++ more_elements xs

-- A list is not indented.
unfoldable pub attr_list : Text → Text → List Element → Writer → Writer
unfolding valid_name elements_text
attr_list ns name xs =
    named ns name (put (key ns name ++ (codes " = [ " ++ (elements_text xs ++ codes " ]\n"))))

unfoldable pub ends_with_newline : Text → Bool
ends_with_newline [] = false
ends_with_newline (c ∷ []) = c == b'\n'
ends_with_newline (c ∷ d ∷ ds) = ends_with_newline (d ∷ ds)

-- The text of a block, with a newline at its end.
abbrev pub block_lines : Text → Text
block_lines text = text ++ (if ends_with_newline text then [] else b'\n' ∷ [])

unfoldable pub block : Text → Text → Text → Writer → Writer
unfolding valid_name spaces ends_with_newline
block ns name text = named ns name (λ w.
    put (codes "%end\n")
      (do_indent (put (key ns name ++ (codes " = %begin\n" ++ block_lines text)) (do_indent w))))

abbrev pub deeper : Writer → Writer
deeper w = record w { indent = (w.indent + 1) % 2 ^ 64 }

unfoldable pub begin : Text → Text → Writer → Writer
unfolding valid_name spaces
begin ns name = named ns name (λ w. deeper (put (key ns name ++ codes " {\n") (do_indent w)))

unfoldable pub begin_attr : Text → Text → Text → Writer → Writer
unfolding valid_name spaces
begin_attr ns name type = named ns name (λ w.
    if valid_name type
    then deeper (put (key ns name ++ (codes " = " ++ (type ++ codes " {\n"))) (do_indent w))
    else w)

-- `end`; the count of levels wraps around below nought.
unfoldable pub end_object : Writer → Writer
unfolding spaces
end_object w =
    put (codes "}\n") (do_indent (record w { indent = (w.indent + (2 ^ 64 - 1)) % 2 ^ 64 }))

-- The text of a comment, up to a zero byte.
unfoldable pub comment_text : ℕ → Text → Text
unfolding spaces
comment_text indent [] = []
comment_text indent (c ∷ cs) = elim (c == 0) [
  | true ↦ []
  | false ↦ elim (c == b'\n') [
    | true ↦ b'\n' ∷ (spaces indent ++ (codes "# " ++ comment_text indent cs))
    | false ↦ c ∷ comment_text indent cs
  ]
]

unfoldable pub comment : Text → Writer → Writer
unfolding spaces comment_text
comment [] w = w
comment (c ∷ cs) w =
    put (codes "# " ++ (comment_text w.indent (c ∷ cs) ++ (b'\n' ∷ []))) (do_indent w)

-- `bl`
abbrev pub blank_line : Writer → Writer
blank_line w = put (b'\n' ∷ []) w

-- What `close` adds.
unfoldable pub close : Writer → Text
close w = w.out ++ codes "# vim: set shiftwidth=2 tabstop=2 expandtab:\n"

-- The calls of a writer, and the text of the file that they give.
pub data Call : Type 0 where
  put_attr : Text → Text → Text → Call
  put_long : Text → Text → ℤ → Call
  put_bool : Text → Text → Bool → Call
  put_list : Text → Text → List Element → Call
  put_block : Text → Text → Text → Call
  put_begin : Text → Text → Call
  put_begin_attr : Text → Text → Text → Call
  put_end put_blank : Call
  put_comment : Text → Call

unfoldable pub write_call : Call → Writer → Writer
unfolding attr attr_long attr_bool attr_list block begin begin_attr end_object comment
write_call (put_attr ns name text) w = attr ns name text w
write_call (put_long ns name n) w = attr_long ns name n w
write_call (put_bool ns name b) w = attr_bool ns name b w
write_call (put_list ns name xs) w = attr_list ns name xs w
write_call (put_block ns name text) w = block ns name text w
write_call (put_begin ns name) w = begin ns name w
write_call (put_begin_attr ns name type) w = begin_attr ns name type w
write_call put_end w = end_object w
write_call put_blank w = blank_line w
write_call (put_comment text) w = comment text w

unfoldable pub write_calls : List Call → Writer → Writer
unfolding write_call
write_calls [] w = w
write_calls (c ∷ cs) w = write_calls cs (write_call c w)

unfoldable pub written : List Call → Text
unfolding write_calls close
written cs = close (write_calls cs (record { out = []; indent = 0 }))
