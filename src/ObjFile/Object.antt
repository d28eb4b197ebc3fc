-- ===== src/ObjFile/Object.antt =====
-- The macros FO_READ_BEGIN, FO_ATTR, FO_OBJECT, FO_READ_ERROR and FO_READ_END.
use sourcemud.Base.{ℕ, zero, suc, Bool, true, false, ◌&&◌, none, some, []}
use sourcemud.Base.Lists.{length}
use sourcemud.Base.Tests.{if◌then◌else◌}
use sourcemud.Base.Text.{Text, text_eq}
use sourcemud.ObjFile.Outcome.{Outcome, ok, thrown, endless, ◌>>=◌}
use sourcemud.ObjFile.Reader.{Reader}
use sourcemud.ObjFile.Nodes.{
  NodeType, attr_node, begin_untyped, Node, get_node, is_begin, is_end, consume,
}

abbrev pub is_attr : NodeType → Bool
is_attr attr_node = true
is_attr _ = false

abbrev pub is_begin_untyped : NodeType → Bool
is_begin_untyped begin_untyped = true
is_begin_untyped _ = false

-- `FO_ATTR(ns, name)`
abbrev pub fo_attr : Text → Text → Node → Bool
fo_attr ns name node = is_attr node.node_type && (text_eq node.ns ns && text_eq node.name name)

-- `FO_OBJECT(ns, name)`
abbrev pub fo_object : Text → Text → Node → Bool
fo_object ns name node =
    is_begin_untyped node.node_type && (text_eq node.ns ns && text_eq node.name name)

-- `FO_READ_ERROR`: a node that nothing takes.
unfoldable pub unrecognized {ℓ} : {A : Type ℓ} → Node → Reader → Outcome A
unrecognized node r =
    (if is_begin node.node_type then consume (suc (length r.rest)) 0 r else ok r) >>= λ r'.
    thrown []

-- The loop from FO_READ_BEGIN to FO_READ_END, on fuel, with what is done with a node that is no end.
unfoldable pub read_object {ℓ} :
    {A : Type ℓ}
    → ℕ
    → (A → Node → Reader → Outcome (A × Reader))
    → A
    → Reader
    → Outcome (A × Reader)
read_object zero step a r = endless
read_object (suc fuel) step a r = get_node r >>= λ g. elim g.0 [
  | none ↦ ok (a, g.1)
  | some node ↦ elim (is_end node.node_type) [
    | true ↦ ok (a, g.1)
    | false ↦ step a node g.1 >>= λ b. read_object fuel step b.0 b.1
  ]
]
