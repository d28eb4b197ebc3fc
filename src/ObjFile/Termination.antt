-- ===== src/ObjFile/Termination.antt =====
-- The loops over a file on a text that is empty or ends with a newline, and a file that has no end.
use sourcemud.Base.{
  ℕ, zero, suc, ◌<◌, ◌≡◌, ◌≢◌, refl, true, false, Option, none, some, [], ◌∷◌, arith,
}
use sourcemud.Base.Lists.{length}
use sourcemud.Base.Text.{Text}
use sourcemud.Strings.Chars.{is_space}
use sourcemud.Strings.Split.{Lacks}
use sourcemud.ObjFile.Outcome.{Outcome, ok, thrown, endless, ◌>>=◌}
use sourcemud.ObjFile.Reader.{Reader, scan, read_token}
use sourcemud.ObjFile.Nodes.{Node, get_node, read_nodes, is_begin, is_end, consume}
use sourcemud.ObjFile.Ends.{Settles, Settles-bind, Settles-test, IsClosed, Leaves}
use sourcemud.ObjFile.Gets.{Gets, get_node-Settles}

Settles-ne-endless {ℓ} : {A : Type ℓ} (P : A → Type 0) (o : Outcome A) → Settles P o → o ≢ endless
Settles-ne-endless P (ok a) h = λ e. cc
Settles-ne-endless P (thrown what) h = λ e. cc
Settles-ne-endless P endless h = absurd h

-- An outcome of which no more is known than that there is one.
abbrev Stops {ℓ} : {A : Type ℓ} → Outcome A → Type 0
Stops = Settles (λ a. Unit {0})

-- Behind a node, a loop that stops on every shorter text stops.
loop_behind {ℓ} :
    {A : Type ℓ} (fuel n : ℕ) (r : Reader) (loop : Reader → Outcome A)
    → Leaves n r.rest
    → n < suc fuel
    → ((k : ℕ) (r' : Reader) → Leaves (suc k) r'.rest → k < fuel → Stops (loop r'))
    → Stops (loop r)
loop_behind fuel zero r loop h enough stops = absurd (omega arith)
loop_behind fuel (suc n) r loop h enough stops = stops n r h (omega arith)

nodes_step :
    (fuel n : ℕ) (g : Option Node × Reader)
    → Gets n g
    → n < suc fuel
    → ((k : ℕ) (r : Reader) → Leaves (suc k) r.rest → k < fuel → Stops (read_nodes fuel r))
    → Stops
        (elim g.0 [ none ↦ ok [] | some node ↦ read_nodes fuel g.1 >>= λ nodes. ok (node ∷ nodes) ])
unfolding Gets
nodes_step fuel n (none, r) h enough stops = tt
nodes_step fuel n (some node, r) h enough stops =
    Settles-bind (λ a. Unit {0}) (λ a. Unit {0}) (read_nodes fuel r) _
      (loop_behind fuel n r (read_nodes fuel) h enough stops) (λ nodes k. tt)

read_nodes-Stops :
    (fuel n : ℕ) (r : Reader) → Leaves (suc n) r.rest → n < fuel → Stops (read_nodes fuel r)
unfolding read_nodes
read_nodes-Stops zero n r h enough = absurd (omega arith)
read_nodes-Stops (suc fuel) n r h enough =
    Settles-bind (Gets n) (λ a. Unit {0}) (get_node r) _ (get_node-Settles n r h)
      (λ g k. nodes_step fuel n g k enough (λ m r' h' e. read_nodes-Stops fuel m r' h' e))

consume_end :
    (fuel n depth : ℕ) (r : Reader)
    → Leaves n r.rest
    → n < suc fuel
    → ((k d : ℕ) (r : Reader) → Leaves (suc k) r.rest → k < fuel → Stops (consume fuel d r))
    → Stops (elim depth [ zero ↦ ok r | suc d ↦ consume fuel d r ])
consume_end fuel n zero r h enough stops = tt
consume_end fuel n (suc d) r h enough stops =
    loop_behind fuel n r (consume fuel d) h enough (λ k. stops k d)

consume_step :
    (fuel n depth : ℕ) (g : Option Node × Reader)
    → Gets n g
    → n < suc fuel
    → ((k d : ℕ) (r : Reader) → Leaves (suc k) r.rest → k < fuel → Stops (consume fuel d r))
    → Stops (elim g.0 [
      | none ↦ ok g.1
      | some node ↦ elim (is_begin node.node_type) [
        | true ↦ consume fuel (suc depth) g.1
        | false ↦ elim (is_end node.node_type) [
          | false ↦ consume fuel depth g.1
          | true ↦ elim depth [ zero ↦ ok g.1 | suc d ↦ consume fuel d g.1 ]
        ]
      ]
    ])
unfolding Gets
consume_step fuel n depth (none, r) h enough stops = tt
consume_step fuel n depth (some node, r) h enough stops =
    Settles-test _ (is_begin node.node_type) _ _
      (λ e. loop_behind fuel n r (consume fuel (suc depth)) h enough (λ k. stops k (suc depth)))
      (λ e.
        Settles-test _ (is_end node.node_type) _ _ (λ e. consume_end fuel n depth r h enough stops)
          (λ e. loop_behind fuel n r (consume fuel depth) h enough (λ k. stops k depth)))

consume-Stops :
    (fuel n depth : ℕ) (r : Reader)
    → Leaves (suc n) r.rest
    → n < fuel
    → Stops (consume fuel depth r)
unfolding consume
consume-Stops zero n depth r h enough = absurd (omega arith)
consume-Stops (suc fuel) n depth r h enough =
    Settles-bind (Gets n) (λ a. Unit {0}) (get_node r) _ (get_node-Settles n r h)
      (λ g k. consume_step fuel n depth g k enough (λ m d r' h' e. consume-Stops fuel m d r' h' e))

-- On a text that is empty or ends with a newline, the loop over all nodes of a file and the loop that
-- skips the rest of an object, from any depth, come to an end, be it with an exception, within one
-- round more than the text has bytes.
pub read_nodes-ne-endless :
    (fuel depth : ℕ) (r : Reader)
    → IsClosed r.rest
    → length r.rest < fuel
    → (read_nodes fuel r ≢ endless) × (consume fuel depth r ≢ endless)
read_nodes-ne-endless fuel depth r closed enough = (
  Settles-ne-endless _ _ (read_nodes-Stops fuel (length r.rest) r (closed, omega arith) enough),
  Settles-ne-endless _ _ (consume-Stops fuel (length r.rest) depth r (closed, omega arith) enough),
)

scan_comment-endless : (line : ℕ) (t : Text) → Lacks b'\n' t → scan true line t ≡ endless
unfolding scan
scan_comment-endless line [] h = refl
scan_comment-endless line (c ∷ cs) h = ground (arith, scan_comment-endless line cs h.1)

-- A comment without a newline, at the end of a file, makes `get` run for ever.
pub get_node-comment :
    (line : ℕ) (t : Text)
    → Lacks b'\n' t
    → get_node (record { rest = b'#' ∷ t; line = line }) ≡ endless
unfolding get_node read_token scan is_space
get_node-comment line t h = rw (scan_comment-endless line t h) refl
