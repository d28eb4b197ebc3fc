-- ===== src/ObjFile/Reads.antt =====
-- A text that File::Reader reads as given nodes, built up line by line.
use sourcemud.Base.{
  ℕ, zero, suc, ◌<◌, ◌≡◌, refl, ap, ◌∙◌, sym, subst, false, some, List, [], ◌∷◌, map, arith,
}
use sourcemud.Base.Lists.{length}
use sourcemud.Base.Text.{Text, codes}
use sourcemud.Strings.Chars.{is_space}
use sourcemud.ObjFile.Outcome.{ok, ◌>>=◌}
use sourcemud.ObjFile.Reader.{Reader, scan, token_from, read_token, next_line}
use sourcemud.ObjFile.Nodes.{Node, read_first, get_node, read_nodes}
use sourcemud.ObjFile.Tokens.{at_line}
use sourcemud.ObjFile.Contents.{content, Content}

-- From a text on, whatever the number of its line, these nodes are read up to the end of the file.
unfoldable pub Reads : Text → List Content → Type 0
Reads t cs =
    (line fuel : ℕ)
    → length cs < fuel
    → (nodes : List Node) × (read_nodes fuel (at_line t line) ≡ ok nodes) × (map content nodes ≡ cs)

read_nodes-some :
    (fuel : ℕ) (r r' : Reader) (node : Node)
    → get_node r ≡ ok (some node, r')
    → read_nodes (suc fuel) r ≡ read_nodes fuel r' >>= (λ nodes. ok (node ∷ nodes))
unfolding read_nodes
read_nodes-some fuel r r' node e = rw e refl

read_nodes_same :
    (fuel : ℕ) (r r' : Reader)
    → get_node r ≡ get_node r'
    → read_nodes (suc fuel) r ≡ read_nodes (suc fuel) r'
unfolding read_nodes
read_nodes_same fuel r r' e = rw e refl

-- One node, and the text behind it.
unfoldable pub Gives : Text → Content → Text → Type 0
Gives t c t' =
    (line : ℕ)
    → (node : Node) × (line' : ℕ) × (get_node (at_line t line) ≡ ok (some node, at_line t' line'))
      × (content node ≡ c)

pub Reads-node :
    (t t' : Text) (c : Content) (cs : List Content) → Gives t c t' → Reads t' cs → Reads t (c ∷ cs)
unfolding Reads Gives
Reads-node t t' c cs gives rest line zero enough = elim enough [ ]
Reads-node t t' c cs gives rest line (suc fuel) enough =
    let (node, line', e, same) = gives line in
    let (nodes, e', same') = rest line' fuel (omega arith) in
    (
      node ∷ nodes,
      read_nodes-some fuel (at_line t line) (at_line t' line') node e
          ∙ ap (λ o. o >>= (λ ns. ok (node ∷ ns))) e',
      rw (same, same') refl,
    )

-- Text that is skipped.
unfoldable pub Skips : Text → Text → Type 0
Skips t t' = (line : ℕ) → (line' : ℕ) × (scan false line t ≡ scan false line' t')

get_node-Skips :
    (t t' : Text) (line line' : ℕ)
    → scan false line t ≡ scan false line' t'
    → get_node (at_line t line) ≡ get_node (at_line t' line')
unfolding get_node read_token
get_node-Skips t t' line line' e = ap (λ o. (o >>= token_from) >>= read_first) e

pub Reads-skip : (t t' : Text) (cs : List Content) → Skips t t' → Reads t' cs → Reads t cs
unfolding Reads Skips
Reads-skip t t' cs skips rest line zero enough = elim enough [ ]
Reads-skip t t' cs skips rest line (suc fuel) enough =
    let (line', e) = skips line in
    let (nodes, e', same) = rest line' (suc fuel) enough in
    (
      nodes,
      read_nodes_same fuel (at_line t line) (at_line t' line') (get_node-Skips t t' line line' e)
          ∙ e',
      same,
    )

Skips-newline : (t : Text) → Skips (b'\n' ∷ t) t
unfolding Skips
Skips-newline t line = (next_line line, unfold scan is_space in refl)

pub Reads-newline : (t : Text) (cs : List Content) → Reads t cs → Reads (b'\n' ∷ t) cs
Reads-newline t cs rest = Reads-skip (b'\n' ∷ t) t cs (Skips-newline t) rest

-- A line that gives a node, up to its newline.
pub line-Reads :
    (t text : Text) (c : Content) (cs : List Content) (u : Text)
    → u ≡ text
    → Gives text c (b'\n' ∷ t)
    → Reads t cs
    → Reads u (c ∷ cs)
line-Reads t text c cs u e gives rest =
    subst (λ x. Reads x (c ∷ cs)) (sym e)
      (Reads-node text (b'\n' ∷ t) c cs gives (Reads-newline t cs rest))

-- The last comment ends the file.
pub Reads-close : Reads (codes "# vim: set shiftwidth=2 tabstop=2 expandtab:\n") []
unfolding Reads read_nodes get_node read_token scan is_space token_from read_first
Reads-close line zero enough = elim enough [ ]
Reads-close line (suc fuel) enough = ([], refl, refl)
