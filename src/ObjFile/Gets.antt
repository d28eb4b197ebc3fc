-- ===== src/ObjFile/Gets.antt =====
-- `get` and `setValue` of File::Reader on a text that is empty or ends with a newline.
use sourcemud.Base.{
  ℕ, zero, suc, ◌≤◌, ◌<◌, ◌≡◌, ◌≢◌, refl, Bool, true, false, Option, none, some, List, arith,
}
use sourcemud.Base.Lists.{length}
use sourcemud.Base.Text.{Text}
use sourcemud.ObjFile.Outcome.{Outcome, ok, thrown, endless, ◌>>=◌}
use sourcemud.ObjFile.Reader.{
  Reader, Token, token_eof, token_string, token_number, token_true, token_false, token_begin,
  token_end, token_set, token_key, token_start_list, token_name, Lexeme, read_token,
}
use sourcemud.ObjFile.Nodes.{
  Element, Value, Node, scalar, list_goes_on, list_end, list_item, read_list, list_value, set_value,
  read_typed, attr_from, is_name, read_value, read_content, is_name_token, read_name, read_key,
  read_first, get_node,
}
use sourcemud.ObjFile.Ends.{
  Settles, Settles-bind, Settles-mono, Settles-if, Settles-test, Leaves, Lexes, read_token-Settles,
}

pub Leaves-weaken : (m n : ℕ) (t : Text) → m ≤ n → Leaves m t → Leaves n t
Leaves-weaken m n t le (closed, less) = (closed, omega arith)

read_token-Leaves :
    (n : ℕ) (r : Reader) → Leaves n r.rest → Settles (λ x. Leaves n x.behind.rest) (read_token r)
read_token-Leaves zero r h = absurd (omega arith)
read_token-Leaves (suc n) r h =
    Settles-mono (Lexes n) _ (read_token r) (λ x k. unfold Lexes in k.0) (read_token-Settles n r h)

-- A token, and what is done with it.
next_token-Settles {ℓ} :
    {B : Type ℓ} (Q : B → Type 0) (n : ℕ) (r : Reader) (f : Lexeme → Outcome B)
    → Leaves n r.rest
    → ((x : Lexeme) → Leaves n x.behind.rest → Settles Q (f x))
    → Settles Q (read_token r >>= f)
next_token-Settles Q n r f h next =
    Settles-bind (λ x. Leaves n x.behind.rest) Q (read_token r) f (read_token-Leaves n r h) next

-- A result with the reader behind it.
abbrev After : {A : Type 0} → ℕ → A × Reader → Type 0
After n g = Leaves n g.1.rest

list_item-Settles :
    (n : ℕ) (o : Option Element) (r : Reader)
    (next : Element → Lexeme → Outcome (Option (List Element) × Reader))
    → Leaves n r.rest
    → ((x : Element) → o ≡ some x → Settles (After n) (read_token r >>= next x))
    → Settles (After n) (list_item o r next)
unfolding list_item
list_item-Settles n none r next h k = h
list_item-Settles n (some x) r next h k = k x refl

list_end-Settles :
    (n : ℕ) (x : Element) (more : Option Bool) (r : Reader)
    (rest : Outcome (Option (List Element) × Reader))
    → Leaves n r.rest
    → Settles (After n) rest
    → Settles (After n) (list_end x more r rest)
unfolding list_end
list_end-Settles n x none r rest h k = h
list_end-Settles n x (some false) r rest h k = h
list_end-Settles n x (some true) r (ok (none, r')) h k = k
list_end-Settles n x (some true) r (ok (some xs, r')) h k = k
list_end-Settles n x (some true) r (thrown what) h k = tt
list_end-Settles n x (some true) r endless h k = k

scalar-ne-eof : (t : Token) (text : Text) (x : Element) → scalar t text ≡ some x → t ≢ token_eof
unfolding scalar
scalar-ne-eof token_eof text x e = cc
scalar-ne-eof token_number text x e = λ k. cc
scalar-ne-eof token_true text x e = λ k. cc
scalar-ne-eof token_false text x e = λ k. cc
scalar-ne-eof token_string text x e = λ k. cc
scalar-ne-eof _ text x e = cc

-- What is behind an element, when the loop from there on settles.
list_rest-Settles :
    (fuel n : ℕ) (l : Lexeme) (x : Element)
    → Lexes n l
    → length l.behind.rest < n
    → n < suc fuel
    → ((k : ℕ) (r : Reader)
        → Leaves (suc k) r.rest
        → k < fuel
        → Settles (After (suc k)) (read_list fuel r))
    → Settles (After (suc n)) (
        read_token l.behind >>= λ y.
        list_end x (list_goes_on y.token) y.behind (read_list fuel y.behind))
list_rest-Settles fuel zero l x k less enough loop = absurd (omega arith)
list_rest-Settles fuel (suc n) l x k less enough loop =
    next_token-Settles (After (suc (suc n))) (suc n) l.behind _ (unfold Lexes in k.0.0, less)
      (λ y h.
        Settles-mono (After (suc n)) _ _ (λ g. Leaves-weaken _ _ g.1.rest (omega arith))
          (list_end-Settles (suc n) x (list_goes_on y.token) y.behind _ h
            (loop n y.behind h (omega arith))))

read_list-Settles :
    (fuel n : ℕ) (r : Reader)
    → Leaves (suc n) r.rest
    → n < fuel
    → Settles (After (suc n)) (read_list fuel r)
unfolding read_list
read_list-Settles zero n r h enough = absurd (omega arith)
read_list-Settles (suc fuel) n r h enough =
    Settles-bind (Lexes n) (After (suc n)) (read_token r) _ (read_token-Settles n r h) (λ l k.
      list_item-Settles (suc n) (scalar l.token l.text) l.behind _ (unfold Lexes in k.0) (λ x e.
        list_rest-Settles fuel n l x k (unfold Lexes in k.1 (scalar-ne-eof l.token l.text x e))
          enough (λ m r' h' e'. read_list-Settles fuel m r' h' e')))

list_value-After : (n : ℕ) (l : Option (List Element) × Reader) → After n l → After n (list_value l)
list_value-After n (none, r) h = h
list_value-After n (some xs, r) h = h

set_value_at :
    (n : ℕ) (t : Token) (text : Text) (r : Reader)
    → Leaves n r.rest
    → Settles (After n) (set_value (record { token = t; text = text; behind = r }))
unfolding set_value
set_value_at zero _ text r h = absurd (omega arith)
set_value_at (suc n) token_start_list text r h =
    Settles-mono (After (suc (length r.rest))) _ _
      (λ g k. Leaves-weaken _ _ g.1.rest (omega arith) k)
      (Settles-bind (After (suc (length r.rest))) (After (suc (length r.rest))) _ _
        (read_list-Settles (suc (length r.rest)) (length r.rest) r (h.0, omega arith) (omega arith))
        (list_value-After (suc (length r.rest))))
set_value_at (suc n) _ text r h = h

attr_from-Settles :
    (n : ℕ) (ns name : Text) (line : ℕ) (v : Option Value × Reader)
    → After n v
    → Settles (After n) (attr_from ns name line v)
unfolding attr_from
attr_from-Settles n ns name line (none, r) h = tt
attr_from-Settles n ns name line (some value, r) h = h

read_typed_at :
    (n : ℕ) (ns name : Text) (line : ℕ) (type : Text) (t : Token) (text : Text) (r : Reader)
    → Leaves n r.rest
    → Settles
        (After n)
        (read_typed ns name line type (record { token = t; text = text; behind = r }))
unfolding read_typed
read_typed_at n ns name line type token_begin text r h = h
read_typed_at n ns name line type _ text r h = tt

read_value-Settles :
    (n : ℕ) (ns name : Text) (line : ℕ) (x : Lexeme)
    → Leaves n x.behind.rest
    → Settles (After n) (read_value ns name line x)
unfolding read_value
read_value-Settles n ns name line x h =
    Settles-test (After n) (is_name x.token) _ _
      (λ e.
        next_token-Settles (After n) n x.behind _ h
          (λ y. read_typed_at n ns name line x.text y.token y.text y.behind))
      (λ e.
        Settles-bind (After n) (After n) (set_value x) _ (set_value_at n x.token x.text x.behind h)
          (attr_from-Settles n ns name line))

read_content_at :
    (n : ℕ) (ns name : Text) (line : ℕ) (t : Token) (text : Text) (r : Reader)
    → Leaves n r.rest
    → Settles (After n) (read_content ns name line (record { token = t; text = text; behind = r }))
unfolding read_content
read_content_at n ns name line token_begin text r h = h
read_content_at n ns name line token_set text r h =
    next_token-Settles (After n) n r _ h (read_value-Settles n ns name line)
read_content_at n ns name line _ text r h = tt

read_name-Settles :
    (n : ℕ) (ns : Text) (line : ℕ) (x : Lexeme)
    → Leaves n x.behind.rest
    → Settles (After n) (read_name ns line x)
unfolding read_name
read_name-Settles n ns line x h =
    Settles-if (After n) (is_name_token x.token) _ _
      (λ e.
        next_token-Settles (After n) n x.behind _ h
          (λ y. read_content_at n ns x.text line y.token y.text y.behind))
      (λ e. tt)

read_key_at :
    (n : ℕ) (ns : Text) (line : ℕ) (t : Token) (text : Text) (r : Reader)
    → Leaves n r.rest
    → Settles (After n) (read_key ns line (record { token = t; text = text; behind = r }))
unfolding read_key
read_key_at n ns line token_key text r h =
    next_token-Settles (After n) n r _ h (read_name-Settles n ns line)
read_key_at n ns line _ text r h = tt

-- A node leaves less of the text.
unfoldable pub Gets : ℕ → Option Node × Reader → Type 0
Gets n (none, r) = Leaves (suc n) r.rest
Gets n (some node, r) = Leaves n r.rest

After-Gets : (n : ℕ) (g : Option Node × Reader) → After n g → Gets n g
unfolding Gets
After-Gets n (none, r) h = Leaves-weaken _ _ r.rest (omega arith) h
After-Gets n (some node, r) h = h

read_first_at :
    (n : ℕ) (t : Token) (text : Text) (r : Reader)
    → Lexes n (record { token = t; text = text; behind = r })
    → Settles (Gets n) (read_first (record { token = t; text = text; behind = r }))
unfolding read_first Gets Lexes
read_first_at n token_eof text r h = h.0
read_first_at n token_end text r h = (h.0.0, h.1 (λ e. cc))
read_first_at n token_name text r h = Settles-mono (After n) (Gets n) _ (After-Gets n) (
    next_token-Settles (After n) n r _ (h.0.0, h.1 (λ e. cc))
      (λ y. read_key_at n text r.line y.token y.text y.behind))
read_first_at n _ text r h = tt

pub get_node-Settles : (n : ℕ) (r : Reader) → Leaves (suc n) r.rest → Settles (Gets n) (get_node r)
unfolding get_node
get_node-Settles n r h =
    Settles-bind (Lexes n) (Gets n) (read_token r) read_first (read_token-Settles n r h)
      (λ x. read_first_at n x.token x.text x.behind)
