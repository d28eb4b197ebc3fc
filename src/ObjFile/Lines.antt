-- ===== src/ObjFile/Lines.antt =====
-- The reader on one line of the writer.
use mathlib.Core.List.{append_assoc}
use sourcemud.Base.{ℕ, ◌≡◌, refl, ap, ◌∙◌, Bool, true, false, none, some, [], ◌∷◌, ◌++◌}
use sourcemud.Base.Int.{ℤ}
use sourcemud.Base.Text.{Text, codes}
use sourcemud.Strings.Chars.{is_alpha, is_alnum, is_digit, is_space}
use sourcemud.Strings.Numbers.{tostr}
use sourcemud.Strings.Split.{Lacks}
use sourcemud.ObjFile.Outcome.{ok, ◌>>=◌}
use sourcemud.ObjFile.Reader.{
  Reader, token_string, token_number, token_begin, token_set, token_key, token_name, scan, symbol,
  is_name_char, name_token, token_from, lexeme, Lexeme, read_token,
}
use sourcemud.ObjFile.Nodes.{
  Value, value_none, value_string, value_int, value_bool, attr_node, begin_untyped, begin_typed,
  end_node, Node, node_at, scalar, set_value, attr_from, read_typed, is_name, read_value,
  read_content, read_name, read_key, read_first, get_node, is_name_token,
}
use sourcemud.ObjFile.Writer.{quote, valid_name, spaces, bool_text, key}
use sourcemud.ObjFile.Tokens.{
  at_line, Stops, read_token-spaces, read_token-valid_name, read_token-quote, read_token-tostr,
  read_token-bool_text, bool_token,
}

-- A name that the reader takes as one.
abbrev pub IsReadable : Text → Type 0
IsReadable n = (valid_name n ≡ true) × (name_token n ≡ token_name)

read_token-name :
    (n t : Text) (line : ℕ)
    → IsReadable n
    → Stops is_name_char t
    → read_token (at_line (n ++ t) line) ≡ lexeme token_name n t line
read_token-name n t line (valid, plain) stops =
    read_token-valid_name n t line valid stops ∙ ap (λ k. lexeme k n t line) plain

pub read_token-key :
    (t : Text) (line : ℕ) → read_token (at_line (b'.' ∷ t) line) ≡ lexeme token_key [] t line
unfolding read_token scan token_from symbol is_space
read_token-key t line = refl

pub read_token-set :
    (t : Text) (line : ℕ) → read_token (at_line (b' ' ∷ b'=' ∷ t) line) ≡ lexeme token_set [] t line
unfolding read_token scan token_from symbol is_space
read_token-set t line = refl

pub read_token-begin :
    (t : Text) (line : ℕ)
    → read_token (at_line (b' ' ∷ b'{' ∷ t) line) ≡ lexeme token_begin [] t line
unfolding read_token scan token_from symbol is_space
read_token-begin t line = refl

pub read_token-blank :
    (t : Text) (line : ℕ) → read_token (at_line (b' ' ∷ t) line) ≡ read_token (at_line t line)
unfolding read_token scan is_space
read_token-blank t line = refl

-- The key of a line, behind white space.
pub get_node-key :
    (k line : ℕ) (ns name t : Text)
    → IsReadable ns
    → IsReadable name
    → Stops is_name_char t
    → get_node (at_line (spaces k ++ (key ns name ++ t)) line)
      ≡ read_token (at_line t line) >>= read_content ns name line
unfolding get_node
get_node-key k line ns name t ns_ok name_ok stops =
    rw
      (
        read_token-spaces k line (key ns name ++ t),
        append_assoc ns (b'.' ∷ name) t,
        read_token-name ns (b'.' ∷ (name ++ t)) line ns_ok
            (unfold is_name_char is_alnum is_alpha is_digit in refl),
      )
      (unfold read_first in
        (rw (read_token-key (name ++ t) line) (
          unfold read_key in
          rw (read_token-name name t line name_ok stops) (unfold read_name is_name_token in refl))))

pub read_value_plain :
    (ns name : Text) (line : ℕ) (x : Lexeme) (value : Value) (r : Reader)
    → is_name x.token ≡ false
    → set_value x ≡ ok (some value, r)
    → read_value ns name line x ≡ ok (some (node_at attr_node ns name value line), r)
unfolding read_value
read_value_plain ns name line x value r plain set =
    rw (plain, read_value) (ap (λ o. o >>= attr_from ns name line) set ∙ unfold attr_from in refl)

-- The line of an attribute, whose value is one token that is no name.
pub get_node-attr :
    (k line : ℕ) (ns name v t : Text) (x : Lexeme) (value : Value) (r : Reader)
    → IsReadable ns
    → IsReadable name
    → read_token (at_line (v ++ t) line) ≡ ok x
    → is_name x.token ≡ false
    → set_value x ≡ ok (some value, r)
    → get_node (at_line (spaces k ++ (key ns name ++ (codes " = " ++ (v ++ t)))) line)
      ≡ ok (some (node_at attr_node ns name value line), r)
get_node-attr k line ns name v t x value r ns_ok name_ok token plain set =
    get_node-key k line ns name (codes " = " ++ (v ++ t)) ns_ok name_ok
      (unfold is_name_char is_alnum is_alpha is_digit in refl)
    ∙ rw (read_token-set (b' ' ∷ (v ++ t)) line) (
        unfold read_content in
        rw (read_token-blank (v ++ t) line, token)
          (read_value_plain ns name line x value r plain set))

pub get_node-quote :
    (k line : ℕ) (ns name s t : Text)
    → IsReadable ns
    → IsReadable name
    → Lacks 0 s
    → get_node (at_line (spaces k ++ (key ns name ++ (codes " = " ++ (quote s ++ t)))) line)
      ≡ ok (some (node_at attr_node ns name (value_string s) line), at_line t line)
get_node-quote k line ns name s t ns_ok name_ok h =
    get_node-attr k line ns name (quote s) t
      (record { token = token_string; text = s; behind = at_line t line }) (value_string s)
      (at_line t line) ns_ok name_ok (read_token-quote s t line h) refl
      (unfold set_value scalar in refl)

pub get_node-tostr :
    (k line : ℕ) (ns name : Text) (n : ℤ) (t : Text)
    → IsReadable ns
    → IsReadable name
    → Stops is_digit t
    → get_node (at_line (spaces k ++ (key ns name ++ (codes " = " ++ (tostr n ++ t)))) line)
      ≡ ok (some (node_at attr_node ns name (value_int (tostr n)) line), at_line t line)
get_node-tostr k line ns name n t ns_ok name_ok stops =
    get_node-attr k line ns name (tostr n) t
      (record { token = token_number; text = tostr n; behind = at_line t line })
      (value_int (tostr n)) (at_line t line) ns_ok name_ok (read_token-tostr n t line stops) refl
      (unfold set_value scalar in refl)

set_value_bool :
    (b : Bool) (text : Text) (r : Reader)
    → (is_name (bool_token b) ≡ false)
      × (set_value (record { token = bool_token b; text = text; behind = r })
          ≡ ok (some (value_bool (bool_text b)), r))
unfolding set_value scalar
set_value_bool true text r = (refl, refl)
set_value_bool false text r = (refl, refl)

pub get_node-bool_text :
    (k line : ℕ) (ns name : Text) (b : Bool) (t : Text)
    → IsReadable ns
    → IsReadable name
    → Stops is_name_char t
    → get_node (at_line (spaces k ++ (key ns name ++ (codes " = " ++ (bool_text b ++ t)))) line)
      ≡ ok (some (node_at attr_node ns name (value_bool (bool_text b)) line), at_line t line)
get_node-bool_text k line ns name b t ns_ok name_ok stops =
    let (plain, set) = set_value_bool b (bool_text b) (at_line t line) in
    get_node-attr k line ns name (bool_text b) t
      (record { token = bool_token b; text = bool_text b; behind = at_line t line })
      (value_bool (bool_text b)) (at_line t line) ns_ok name_ok
      (read_token-bool_text b t line stops) plain set

pub get_node-begin :
    (k line : ℕ) (ns name t : Text)
    → IsReadable ns
    → IsReadable name
    → get_node (at_line (spaces k ++ (key ns name ++ (codes " {" ++ t))) line)
      ≡ ok (some (node_at begin_untyped ns name value_none line), at_line t line)
get_node-begin k line ns name t ns_ok name_ok =
    get_node-key k line ns name (codes " {" ++ t) ns_ok name_ok
      (unfold is_name_char is_alnum is_alpha is_digit in refl)
    ∙ rw (read_token-begin t line) (unfold read_content in refl)

pub get_node-begin_attr :
    (k line : ℕ) (ns name type t : Text)
    → IsReadable ns
    → IsReadable name
    → IsReadable type
    → get_node
        (at_line (spaces k ++ (key ns name ++ (codes " = " ++ (type ++ (codes " {" ++ t))))) line)
      ≡ ok (some (node_at begin_typed ns name (value_string type) line), at_line t line)
get_node-begin_attr k line ns name type t ns_ok name_ok type_ok =
    let word = type ++ (codes " {" ++ t) in
    get_node-key k line ns name (codes " = " ++ word) ns_ok name_ok
      (unfold is_name_char is_alnum is_alpha is_digit in refl)
    ∙ rw (read_token-set (b' ' ∷ word) line) (
        unfold read_content in
        rw
          (
            read_token-blank word line,
            read_token-name type (codes " {" ++ t) line type_ok
                (unfold is_name_char is_alnum is_alpha is_digit in refl),
          )
          (unfold read_value in rw (read_token-begin t line) (unfold read_typed in refl)))

pub get_node-end :
    (k line : ℕ) (t : Text)
    → (node : Node) × (get_node (at_line (spaces k ++ (b'}' ∷ t)) line)
        ≡ ok (some node, at_line t line))
      × (node.node_type ≡ end_node)
      × (node.ns ≡ [])
      × (node.name ≡ [])
      × (node.value ≡ value_none)
unfolding get_node
get_node-end k line t = rw (read_token-spaces k line (b'}' ∷ t)) (
  record { node_type = end_node; ns = []; name = []; value = value_none; line = none },
  unfold read_token scan token_from symbol is_space read_first in refl,
  refl,
  refl,
  refl,
  refl,
)
