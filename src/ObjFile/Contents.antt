-- ===== src/ObjFile/Contents.antt =====
-- The nodes that the calls of File::Writer stand for, and which calls File::Reader can read back.
use sourcemud.Base.{◌≡◌, ◌≢◌, true, List, [], ◌∷◌, ◌++◌, map}
use sourcemud.Base.Lists.{All}
use sourcemud.Base.Text.{Text}
use sourcemud.Strings.Numbers.{tostr}
use sourcemud.Strings.Split.{Lacks}
use sourcemud.ObjFile.Nodes.{
  Value, value_none, value_string, value_int, value_bool, value_list, NodeType, attr_node,
  begin_untyped, begin_typed, end_node, Node,
}
use sourcemud.ObjFile.Writer.{
  bool_text, block_lines, Call, put_attr, put_long, put_bool, put_list, put_block, put_begin,
  put_begin_attr, put_end, put_blank, put_comment,
}
use sourcemud.ObjFile.Lines.{IsReadable}
use sourcemud.ObjFile.Lists.{IsReadableElement, read_back}
use sourcemud.ObjFile.Blocks.{has_no_end}

-- A node without its line.
pub record Content : Type 0 where
  pub node_type : NodeType
  pub ns : Text
  pub name : Text
  pub value : Value

abbrev pub content : Node → Content
content n = record { node_type = n.node_type; ns = n.ns; name = n.name; value = n.value }

abbrev pub attribute : Text → Text → Value → List Content
attribute ns name value = record { node_type = attr_node; ns = ns; name = name; value = value } ∷ []

-- The nodes that a call of the writer stands for.
abbrev pub contents_of : Call → List Content
contents_of (put_attr ns name text) = attribute ns name (value_string text)
contents_of (put_long ns name n) = attribute ns name (value_int (tostr n))
contents_of (put_bool ns name b) = attribute ns name (value_bool (bool_text b))
contents_of (put_list ns name xs) = attribute ns name (value_list (map read_back xs))
contents_of (put_block ns name text) = attribute ns name (value_string (block_lines text))
contents_of (put_begin ns name) =
    record { node_type = begin_untyped; ns = ns; name = name; value = value_none } ∷ []
contents_of (put_begin_attr ns name type) =
    record { node_type = begin_typed; ns = ns; name = name; value = value_string type } ∷ []
contents_of put_end = record { node_type = end_node; ns = []; name = []; value = value_none } ∷ []
contents_of put_blank = []
contents_of (put_comment text) = []

abbrev pub contents : List Call → List Content
contents [] = []
contents (c ∷ cs) = contents_of c ++ contents cs

-- A call that writes what can be read: its names are valid and not `true` or `false`, a string has no
-- zero byte, a list is not empty, and no line of a block reads as its end.
abbrev pub IsFaithful : Call → Type 0
IsFaithful (put_attr ns name text) = IsReadable ns × IsReadable name × Lacks 0 text
IsFaithful (put_long ns name n) = IsReadable ns × IsReadable name
IsFaithful (put_bool ns name b) = IsReadable ns × IsReadable name
IsFaithful (put_list ns name xs) =
    IsReadable ns × IsReadable name × (xs ≢ []) × All IsReadableElement xs
IsFaithful (put_block ns name text) =
    IsReadable ns × IsReadable name × (has_no_end [] (block_lines text) ≡ true)
IsFaithful (put_begin ns name) = IsReadable ns × IsReadable name
IsFaithful (put_begin_attr ns name type) = IsReadable ns × IsReadable name × IsReadable type
IsFaithful put_end = Unit {0}
IsFaithful put_blank = Unit {0}
IsFaithful (put_comment text) = Unit {0}
