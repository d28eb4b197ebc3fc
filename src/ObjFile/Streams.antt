-- ===== src/ObjFile/Streams.antt =====
-- The loop over the nodes of an object, on a file of which the nodes are known.
use sourcemud.Base.{
  ℕ, zero, suc, ◌≤◌, ◌<◌, ◌≡◌, refl, ◌∙◌, subst, Bool, true, false, Option, none, some, List, [],
  ◌∷◌, map, arith,
}
use sourcemud.ObjFile.Outcome.{Outcome, ok, thrown, endless, ◌>>=◌}
use sourcemud.ObjFile.Reader.{Reader}
use sourcemud.ObjFile.Nodes.{Node, get_node, read_nodes, is_end}
use sourcemud.ObjFile.Contents.{Content, content}
use sourcemud.ObjFile.Object.{read_object}

abbrev pub node_with : Content → Option ℕ → Node
node_with c line = record {
  node_type = c.node_type;
  ns = c.ns;
  name = c.name;
  value = c.value;
  line = line;
}

-- A reader gives these nodes, and then the end of the file.
unfoldable pub Streams : Reader → List Content → Type 0
Streams r [] = (r' : Reader) × (get_node r ≡ ok (none, r'))
Streams r (c ∷ cs) =
    (line : Option ℕ) × (r' : Reader) × (get_node r ≡ ok (some (node_with c line), r'))
    × Streams r' cs

node_Streams :
    (o : Outcome (List Node)) (r r' : Reader) (node : Node) (nodes : List Node)
    → get_node r ≡ ok (some node, r')
    → (o >>= λ ns. ok (node ∷ ns)) ≡ ok nodes
    → ((ns : List Node) → o ≡ ok ns → Streams r' (map content ns))
    → Streams r (map content nodes)
node_Streams (thrown what) r r' node nodes e all rest = cc
node_Streams endless r r' node nodes e all rest = cc
node_Streams (ok ns) r r' node nodes e all rest =
    let same : node ∷ ns ≡ nodes = cc in
    subst (λ xs. Streams r (map content xs)) same
      (unfold Streams in (node.line, r', e, rest ns refl))

get_Streams :
    (fuel : ℕ) (o : Outcome (Option Node × Reader)) (r : Reader) (nodes : List Node)
    → get_node r ≡ o
    → (o >>= λ g. elim g.0 [
      | none ↦ ok []
      | some node ↦ read_nodes fuel g.1 >>= λ nodes. ok (node ∷ nodes)
    ])
      ≡ ok nodes
    → ((r' : Reader) (ns : List Node) → read_nodes fuel r' ≡ ok ns → Streams r' (map content ns))
    → Streams r (map content nodes)
get_Streams fuel (thrown what) r nodes e all rest = cc
get_Streams fuel endless r nodes e all rest = cc
get_Streams fuel (ok (none, r')) r nodes e all rest =
    let same : [] ≡ nodes = cc in
    subst (λ xs. Streams r (map content xs)) same (unfold Streams in (r', e))
get_Streams fuel (ok (some node, r')) r nodes e all rest =
    node_Streams (read_nodes fuel r') r r' node nodes e all (rest r')

pub read_nodes-Streams :
    (fuel : ℕ) (r : Reader) (nodes : List Node)
    → read_nodes fuel r ≡ ok nodes
    → Streams r (map content nodes)
unfolding read_nodes
read_nodes-Streams zero r nodes e = cc
read_nodes-Streams (suc fuel) r nodes e =
    get_Streams fuel (get_node r) r nodes refl e (λ r' ns e'. read_nodes-Streams fuel r' ns e')

elim_true {ℓ} : {A : Type ℓ} (b : Bool) (x y : A) → b ≡ true → elim b [ true ↦ x | false ↦ y ] ≡ x
elim_true true x y e = refl
elim_true false x y e = cc

elim_false {ℓ} : {A : Type ℓ} (b : Bool) (x y : A) → b ≡ false → elim b [ true ↦ x | false ↦ y ] ≡ y
elim_false true x y e = cc
elim_false false x y e = refl

-- The loop ends with this value, with a property of the reader behind it, on any fuel above the count.
module _ {ℓ} {A : Type ℓ} (step : A → Node → Reader → Outcome (A × Reader)) where
  unfoldable pub Loads : ℕ → A → Reader → A → (Reader → Type 0) → Type ℓ
  Loads n a r b Q =
      (fuel : ℕ) → n < fuel → (r' : Reader) × (read_object fuel step a r ≡ ok (b, r')) × Q r'

  pub Loads-eof : (n : ℕ) (a : A) (r : Reader) → Streams r [] → Loads n a r a (λ r'. Unit {0})
  unfolding Loads Streams read_object
  Loads-eof n a r (r', e) zero enough = absurd (omega arith)
  Loads-eof n a r (r', e) (suc fuel) enough = (r', rw e refl, tt)

  pub Loads-end :
      (n : ℕ) (a : A) (r : Reader) (c : Content) (cs : List Content)
      → is_end c.node_type ≡ true
      → Streams r (c ∷ cs)
      → Loads n a r a (λ r'. Streams r' cs)
  unfolding Loads Streams read_object
  Loads-end n a r c cs is (line, r', e, rest) zero enough = absurd (omega arith)
  Loads-end n a r c cs is (line, r', e, rest) (suc fuel) enough =
      (r', rw e (elim_true (is_end c.node_type) _ _ is), rest)

  pub Loads-step :
      (m n : ℕ) (a b d : A) (r : Reader) (Q : Reader → Type 0) (c : Content) (cs : List Content)
      → m < n
      → is_end c.node_type ≡ false
      → Streams r (c ∷ cs)
      → ((line : Option ℕ) (r' : Reader)
          → Streams r' cs
          → (r'' : Reader) × (step a (node_with c line) r' ≡ ok (b, r'')) × Loads m b r'' d Q)
      → Loads n a r d Q
  unfolding Loads Streams read_object
  Loads-step m n a b d r Q c cs less is (line, r', e, rest) next zero enough = absurd (omega arith)
  Loads-step m n a b d r Q c cs less is (line, r', e, rest) next (suc fuel) enough =
      let (r'', e', loads) = next line r' rest in
      let (end, e'', q) = loads fuel (omega arith) in
      (end, rw e (elim_false (is_end c.node_type) _ _ is ∙ rw e' e''), q)

  pub Loads-mono :
      (m n : ℕ) (a b : A) (r : Reader) (Q : Reader → Type 0)
      → m ≤ n
      → Loads m a r b Q
      → Loads n a r b Q
  unfolding Loads
  Loads-mono m n a b r Q le h fuel enough = h fuel (omega arith)
