-- ===== src/ObjFile/Lists.antt =====
-- The reader on the lists of the writer.
use mathlib.Core.List.{append_assoc}
use sourcemud.Base.{
  ℕ, zero, suc, ◌≤◌, ◌<◌, ◌≡◌, refl, ap, ◌∙◌, sym, Bool, true, false, Option, some, List, [], ◌∷◌,
  ◌++◌, map, arith,
}
use sourcemud.Base.Int.{ℤ}
use sourcemud.Base.Lists.{All, length, length-append}
use sourcemud.Base.Text.{Text, codes}
use sourcemud.Strings.Chars.{is_alpha, is_alnum, is_digit, is_space}
use sourcemud.Strings.Numbers.{tostr}
use sourcemud.Strings.Split.{Lacks}
use sourcemud.ObjFile.Outcome.{Outcome, ok, ◌>>=◌}
use sourcemud.ObjFile.Reader.{
  Reader, token_string, token_number, token_end_list, token_comma, token_start_list, scan, symbol,
  is_name_char, token_from, lexeme, Lexeme, read_token,
}
use sourcemud.ObjFile.Nodes.{
  Element, string_element, int_element, bool_element, no_element, nested_list, value_list,
  attr_node, node_at, scalar, read_list, cons_value, list_end, list_item, list_goes_on, list_value,
  set_value, get_node,
}
use sourcemud.ObjFile.Writer.{quote, spaces, escape, bool_text, key, element_text, more_elements}
use sourcemud.ObjFile.Lines.{IsReadable, get_node-attr, read_token-blank}
use sourcemud.ObjFile.Tokens.{
  at_line, Stops, read_token-quote, read_token-tostr, read_token-bool_text, bool_token,
}

-- An element that can be read, and what it is read as.
abbrev pub IsReadableElement : Element → Type 0
IsReadableElement no_element = Unit {0}
IsReadableElement nested_list = Unit {0}
IsReadableElement (string_element text) = Lacks 0 text
IsReadableElement (int_element text) = (n : ℤ) × (text ≡ tostr n)
IsReadableElement (bool_element text) = (b : Bool) × (text ≡ bool_text b)

abbrev pub read_back : Element → Element
read_back no_element = string_element []
read_back nested_list = string_element []
read_back x = x

scalar_bool :
    (b : Bool) (text : Text) → scalar (bool_token b) text ≡ some (bool_element (bool_text b))
unfolding scalar
scalar_bool true text = refl
scalar_bool false text = refl

read_token-element_text :
    (x : Element) (t : Text) (line : ℕ)
    → IsReadableElement x
    → Stops is_digit t
    → Stops is_name_char t
    → (l : Lexeme) × (read_token (at_line (element_text x ++ t) line) ≡ ok l)
      × (scalar l.token l.text ≡ some (read_back x))
      × (l.behind ≡ at_line t line)
unfolding element_text
read_token-element_text no_element t line h d n = (
  record { token = token_string; text = []; behind = at_line t line },
  unfold quote escape in read_token-quote [] t line tt,
  unfold scalar in refl,
  refl,
)
read_token-element_text nested_list t line h d n = (
  record { token = token_string; text = []; behind = at_line t line },
  unfold quote escape in read_token-quote [] t line tt,
  unfold scalar in refl,
  refl,
)
read_token-element_text (string_element text) t line h d n = (
  record { token = token_string; text = text; behind = at_line t line },
  read_token-quote text t line h,
  unfold scalar in refl,
  refl,
)
read_token-element_text (int_element text) t line (m, e) d n = (
  record { token = token_number; text = text; behind = at_line t line },
  rw e (read_token-tostr m t line d),
  unfold scalar in refl,
  refl,
)
read_token-element_text (bool_element text) t line (b, e) d n = (
  record { token = bool_token b; text = text; behind = at_line t line },
  rw e (read_token-bool_text b t line n),
  scalar_bool b text ∙ ap (λ s. some (bool_element s)) (sym e),
  refl,
)

read_list-blank :
    (fuel : ℕ) (t : Text) (line : ℕ)
    → read_list fuel (at_line (b' ' ∷ t) line) ≡ read_list fuel (at_line t line)
unfolding read_list
read_list-blank zero t line = refl
read_list-blank (suc fuel) t line = rw (read_token-blank t line) refl

list_end_more :
    (x : Element) (r : Reader) (o : Outcome (Option (List Element) × Reader))
    → list_end x (some true) r o ≡ o >>= (λ l. ok (cons_value x l))
unfolding list_end
list_end_more x r o = refl

read_list-step :
    (fuel : ℕ) (r : Reader) (l y : Lexeme) (x : Element) (go : Bool)
    → read_token r ≡ ok l
    → scalar l.token l.text ≡ some x
    → read_token l.behind ≡ ok y
    → list_goes_on y.token ≡ some go
    → read_list (suc fuel) r ≡ list_end x (some go) y.behind (read_list fuel y.behind)
unfolding read_list
read_list-step fuel r l y x go first e second e' =
    rw (first, e) (unfold list_item in rw (second, e') refl)

read_token-comma :
    (t : Text) (line : ℕ)
    → read_token (at_line (codes ", " ++ t) line) ≡ lexeme token_comma [] (b' ' ∷ t) line
unfolding read_token scan token_from symbol is_space
read_token-comma t line = refl

read_token-end_list :
    (t : Text) (line : ℕ)
    → read_token (at_line (codes " ]" ++ t) line) ≡ lexeme token_end_list [] t line
unfolding read_token scan token_from symbol is_space
read_token-end_list t line = refl

read_token-start_list :
    (t : Text) (line : ℕ) → read_token (at_line (b'[' ∷ t) line) ≡ lexeme token_start_list [] t line
unfolding read_token scan token_from symbol is_space
read_token-start_list t line = refl

-- Elements up to the end of their list.
read_list-elements :
    (fuel : ℕ) (x : Element) (xs : List Element) (t : Text) (line : ℕ)
    → All IsReadableElement (x ∷ xs)
    → length xs < fuel
    → read_list fuel (at_line (element_text x ++ (more_elements xs ++ (codes " ]" ++ t))) line)
      ≡ ok (some (map read_back (x ∷ xs)), at_line t line)
unfolding more_elements
read_list-elements zero x xs t line all enough = elim enough [ ]
read_list-elements (suc fuel) x [] t line all enough =
    let (l, e, is, behind) =
      read_token-element_text x (codes " ]" ++ t) line all.0 (unfold is_digit in refl)
        (unfold is_name_char is_alnum is_alpha is_digit in refl) in
    read_list-step fuel _ l (record { token = token_end_list; text = []; behind = at_line t line })
      (read_back x) false e is (rw behind (read_token-end_list t line))
      (unfold list_goes_on in refl)
    ∙ unfold list_end in refl
read_list-elements (suc fuel) x (y ∷ ys) t line all enough =
    let rest = (element_text y ++ more_elements ys) ++ (codes " ]" ++ t) in
    let (l, e, is, behind) =
      read_token-element_text x (codes ", " ++ rest) line all.0 (unfold is_digit in refl)
        (unfold is_name_char is_alnum is_alpha is_digit in refl) in
    let comma : Lexeme = record {
      token = token_comma;
      text = [];
      behind = at_line (b' ' ∷ rest) line;
    } in
    let later : read_list fuel (at_line (b' ' ∷ rest) line)
        ≡ ok (some (map read_back (y ∷ ys)), at_line t line) =
      read_list-blank fuel rest line
      ∙ ap (λ u. read_list fuel (at_line u line))
          (append_assoc (element_text y) (more_elements ys) (codes " ]" ++ t))
      ∙ read_list-elements fuel y ys t line all.1 (omega arith) in
    read_list-step fuel (at_line (element_text x ++ (codes ", " ++ rest)) line) l comma
      (read_back x) true e is (rw behind (read_token-comma rest line)) (unfold list_goes_on in refl)
    ∙ list_end_more (read_back x) (at_line (b' ' ∷ rest) line)
        (read_list fuel (at_line (b' ' ∷ rest) line))
    ∙ ap (λ o. o >>= (λ r. ok (cons_value (read_back x) r))) later

more_elements-length : (xs : List Element) → length xs ≤ length (more_elements xs)
unfolding more_elements
more_elements-length [] = omega arith
more_elements-length (x ∷ xs) =
    omega (arith, more_elements-length xs, length-append (element_text x) (more_elements xs))

set_value_list :
    (x : Element) (xs : List Element) (t : Text) (line : ℕ)
    → All IsReadableElement (x ∷ xs)
    → set_value (record {
      token = token_start_list;
      text = [];
      behind = at_line (b' ' ∷ (element_text x ++ (more_elements xs ++ (codes " ]" ++ t)))) line;
    })
      ≡ ok (some (value_list (map read_back (x ∷ xs))), at_line t line)
unfolding set_value
set_value_list x xs t line all =
    let behind = element_text x ++ (more_elements xs ++ (codes " ]" ++ t)) in
    ap (λ o. o >>= (λ l. ok (list_value l)))
      (read_list-blank (suc (suc (length behind))) behind line
        ∙ read_list-elements (suc (suc (length behind))) x xs t line all (
            omega (
              arith,
              more_elements-length xs,
              length-append (element_text x) (more_elements xs ++ (codes " ]" ++ t)),
              length-append (more_elements xs) (codes " ]" ++ t),
            )))

-- The line of a list that is not empty.
pub get_node-list :
    (line : ℕ) (ns name : Text) (x : Element) (xs : List Element) (t : Text)
    → IsReadable ns
    → IsReadable name
    → All IsReadableElement (x ∷ xs)
    → get_node (
        at_line
          (key ns name
            ++ (codes " = [ " ++ (element_text x ++ (more_elements xs ++ (codes " ]" ++ t)))))
          line)
      ≡ ok (
        some (node_at attr_node ns name (value_list (map read_back (x ∷ xs))) line),
        at_line t line,
      )
get_node-list line ns name x xs t ns_ok name_ok all =
    let behind = b' ' ∷ (element_text x ++ (more_elements xs ++ (codes " ]" ++ t))) in
    unfold spaces in
    get_node-attr 0 line ns name [] (b'[' ∷ behind)
      (record { token = token_start_list; text = []; behind = at_line behind line })
      (value_list (map read_back (x ∷ xs))) (at_line t line) ns_ok name_ok
      (read_token-start_list behind line) refl (set_value_list x xs t line all)
