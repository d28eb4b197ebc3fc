-- ===== src/ObjFile/Nodes.antt =====
-- `get`, `setValue` and `consume` of File::Reader, and the getters of File::Node.
use sourcemud.Base.{ℕ, zero, suc, Bool, true, false, ◌||◌, Option, none, some, List, [], ◌∷◌}
use sourcemud.Base.Int.{ℤ}
use sourcemud.Base.Lists.{length, get_elem?}
use sourcemud.Base.Tests.{◌==◌, if◌then◌else◌}
use sourcemud.Base.Text.{Text, codes, text_eq}
use sourcemud.Strings.Numbers.{tolong}
use sourcemud.Telnet.Stream.{to_int}
use sourcemud.ObjFile.Outcome.{Outcome, ok, thrown, endless, ◌>>=◌}
use sourcemud.ObjFile.Reader.{
  Reader, Token, token_eof, token_string, token_number, token_true, token_false, token_begin,
  token_end, token_set, token_key, token_start_list, token_end_list, token_comma, token_name,
  Lexeme, read_token,
}

-- A value in a list, and a value. What a list in a list holds is never looked at.
pub data Element : Type 0 where
  no_element nested_list : Element
  string_element int_element bool_element : Text → Element

pub data Value : Type 0 where
  value_none : Value
  value_string value_int value_bool : Text → Value
  value_list : List Element → Value

pub data NodeType : Type 0 where
  attr_node begin_untyped begin_typed end_node error_node : NodeType

-- The line is `none` where it is not set.
pub record Node : Type 0 where
  pub node_type : NodeType
  pub ns : Text
  pub name : Text
  pub value : Value
  pub line : Option ℕ

-- `setValue` of a token that is not the start of a list.
unfoldable pub scalar : Token → Text → Option Element
scalar token_number text = some (int_element text)
scalar token_true text = some (bool_element (codes "true"))
scalar token_false text = some (bool_element (codes "false"))
scalar token_string text = some (string_element text)
scalar _ text = none

abbrev pub to_value : Option Element → Option Value
to_value (some (int_element text)) = some (value_int text)
to_value (some (bool_element text)) = some (value_bool text)
to_value (some (string_element text)) = some (value_string text)
to_value _ = none

-- The token behind an element: whether the list ends, goes on, or is bad.
unfoldable pub list_goes_on : Token → Option Bool
list_goes_on token_end_list = some false
list_goes_on token_comma = some true
list_goes_on _ = none

abbrev pub cons_value : Element → Option (List Element) × Reader → Option (List Element) × Reader
cons_value x (none, r) = (none, r)
cons_value x (some xs, r) = (some (x ∷ xs), r)

-- What the tokens of an element and behind it come to.
unfoldable pub list_end :
    Element
    → Option Bool
    → Reader
    → Outcome (Option (List Element) × Reader)
    → Outcome (Option (List Element) × Reader)
list_end x none r rest = ok (none, r)
list_end x (some false) r rest = ok (some (x ∷ []), r)
list_end x (some true) r rest = rest >>= λ l. ok (cons_value x l)

unfoldable pub list_item :
    Option Element
    → Reader
    → (Element → Lexeme → Outcome (Option (List Element) × Reader))
    → Outcome (Option (List Element) × Reader)
list_item none r next = ok (none, r)
list_item (some x) r next = read_token r >>= next x

-- The loop over a list, on fuel.
unfoldable pub read_list : ℕ → Reader → Outcome (Option (List Element) × Reader)
unfolding scalar list_goes_on list_end list_item
read_list zero r = endless
read_list (suc fuel) r = read_token r >>= λ l.
    list_item (scalar l.token l.text) l.behind
      (λ x y. list_end x (list_goes_on y.token) y.behind (read_list fuel y.behind))

abbrev pub list_value : Option (List Element) × Reader → Option Value × Reader
list_value (none, r) = (none, r)
list_value (some xs, r) = (some (value_list xs), r)

-- A list has fewer elements than the file has bytes left.
unfoldable pub set_value : Lexeme → Outcome (Option Value × Reader)
unfolding scalar read_list
set_value x = elim x.token [
  | token_start_list ↦ read_list (suc (length x.behind.rest)) x.behind >>= λ l. ok (list_value l)
  | t ↦ ok (to_value (scalar t x.text), x.behind)
]

abbrev pub node_at : NodeType → Text → Text → Value → ℕ → Node
node_at type ns name value line = record {
  node_type = type;
  ns = ns;
  name = name;
  value = value;
  line = some line;
}

-- The brace behind the type of an object.
unfoldable pub read_typed : Text → Text → ℕ → Text → Lexeme → Outcome (Option Node × Reader)
read_typed ns name line type y = elim y.token [
  | token_begin ↦ ok (some (node_at begin_typed ns name (value_string type) line), y.behind)
  | _ ↦ thrown (codes "File reader error: { expected after name")
]

unfoldable pub attr_from : Text → Text → ℕ → Option Value × Reader → Outcome (Option Node × Reader)
attr_from ns name line (none, r) = thrown (codes "File reader error: value expected after =")
attr_from ns name line (some value, r) = ok (some (node_at attr_node ns name value line), r)

abbrev pub is_name : Token → Bool
is_name token_name = true
is_name _ = false

-- What follows the equals sign of an attribute or a typed object.
unfoldable pub read_value : Text → Text → ℕ → Lexeme → Outcome (Option Node × Reader)
unfolding set_value attr_from read_typed
read_value ns name line x = elim (is_name x.token) [
  | true ↦ read_token x.behind >>= read_typed ns name line x.text
  | false ↦ set_value x >>= attr_from ns name line
]

unfoldable pub read_content : Text → Text → ℕ → Lexeme → Outcome (Option Node × Reader)
unfolding read_value
read_content ns name line x = elim x.token [
  | token_begin ↦ ok (some (node_at begin_untyped ns name value_none line), x.behind)
  | token_set ↦ read_token x.behind >>= read_value ns name line
  | _ ↦ thrown (codes "File reader error: expected { or = after name")
]

unfoldable pub is_name_token : Token → Bool
is_name_token token_name = true
is_name_token token_string = true
is_name_token _ = false

unfoldable pub read_name : Text → ℕ → Lexeme → Outcome (Option Node × Reader)
unfolding read_content is_name_token
read_name ns line x =
    if is_name_token x.token
    then read_token x.behind >>= read_content ns x.text line
    else thrown (codes "File reader error: name expected after .")

unfoldable pub read_key : Text → ℕ → Lexeme → Outcome (Option Node × Reader)
unfolding read_name
read_key ns line x = elim x.token [
  | token_key ↦ read_token x.behind >>= read_name ns line
  | _ ↦ thrown (codes "File reader error: expected .")
]

unfoldable pub read_first : Lexeme → Outcome (Option Node × Reader)
unfolding read_key
read_first x = elim x.token [
  | token_eof ↦ ok (none, x.behind)
  | token_end ↦ ok (
    some (record { node_type = end_node; ns = []; name = []; value = value_none; line = none }),
    x.behind,
  )
  | token_name ↦ read_token x.behind >>= read_key x.text x.behind.line
  | _ ↦ thrown (codes "File reader error: name expected")
]

-- `get`; no node at the end of the file.
unfoldable pub get_node : Reader → Outcome (Option Node × Reader)
unfolding read_first
get_node r = read_token r >>= read_first

-- `while (reader.get(node))`, on fuel: all nodes.
unfoldable pub read_nodes : ℕ → Reader → Outcome (List Node)
unfolding get_node
read_nodes zero r = endless
read_nodes (suc fuel) r = get_node r >>= λ g. elim g.0 [
  | none ↦ ok []
  | some node ↦ read_nodes fuel g.1 >>= λ nodes. ok (node ∷ nodes)
]

abbrev pub is_begin : NodeType → Bool
is_begin begin_untyped = true
is_begin begin_typed = true
is_begin _ = false

abbrev pub is_end : NodeType → Bool
is_end end_node = true
is_end _ = false

-- `consume`, on fuel.
unfoldable pub consume : ℕ → ℕ → Reader → Outcome Reader
unfolding get_node
consume zero depth r = endless
consume (suc fuel) depth r = get_node r >>= λ g. elim g.0 [
  | none ↦ ok g.1
  | some node ↦ elim (is_begin node.node_type) [
    | true ↦ consume fuel (suc depth) g.1
    | false ↦ elim (is_end node.node_type) [
      | false ↦ consume fuel depth g.1
      | true ↦ elim depth [ zero ↦ ok g.1 | suc d ↦ consume fuel d g.1 ]
    ]
  ]
]

-- The getters throw where the type or the size of the value is another.
abbrev pub mismatch {ℓ} : {A : Type ℓ} → Outcome A
mismatch = thrown (codes "data type mismatch")

unfoldable pub get_int : Node → Outcome ℤ
get_int n = elim n.value [ value_int text ↦ ok (to_int (tolong text)) | _ ↦ mismatch ]

unfoldable pub get_bool : Node → Outcome Bool
get_bool n = elim n.value [
  | value_bool text ↦
      ok (text_eq text (codes "true") || (text_eq text (codes "yes") || text_eq text (codes "on")))
  | _ ↦ mismatch
]

unfoldable pub get_string : Node → Outcome Text
get_string n = elim n.value [ value_string text ↦ ok text | _ ↦ mismatch ]

unfoldable pub get_list : Node → Outcome (List Element)
get_list n = elim n.value [ value_list xs ↦ ok xs | _ ↦ mismatch ]

unfoldable pub get_list_of : ℕ → Node → Outcome (List Element)
unfolding get_list
get_list_of size n =
    get_list n >>= λ xs. if length xs == size then ok xs else thrown (codes "list size mismatch")

unfoldable pub get_element : ℕ → Node → Outcome Element
unfolding get_list
get_element index n = get_list n >>= λ xs. elim (get_elem? xs index) [
  | none ↦ thrown (codes "list size mismatch")
  | some x ↦ ok x
]

unfoldable pub get_string_at : ℕ → Node → Outcome Text
unfolding get_element
get_string_at index n =
    get_element index n >>= λ x. elim x [ string_element text ↦ ok text | _ ↦ mismatch ]

unfoldable pub get_int_at : ℕ → Node → Outcome ℤ
unfolding get_element
get_int_at index n = get_element index n >>= λ x. elim x [
  | int_element text ↦ ok (to_int (tolong text))
  | _ ↦ mismatch
]
