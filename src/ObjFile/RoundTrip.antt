-- ===== src/ObjFile/RoundTrip.antt =====
-- File::Reader on a file that File::Writer wrote.
use mathlib.Core.List.{append_assoc}
use sourcemud.Base.{ℕ, ◌+◌, ◌-◌, ◌%◌, ◌^◌, ◌<◌, ◌≡◌, refl, sym, subst, List, [], ◌∷◌, ◌++◌, map}
use sourcemud.Base.Lists.{All, length}
use sourcemud.Base.Text.{Text, codes}
use sourcemud.Strings.Chars.{is_alpha, is_alnum, is_digit}
use sourcemud.Strings.Numbers.{tostr}
use sourcemud.ObjFile.Outcome.{ok}
use sourcemud.ObjFile.Reader.{is_name_char}
use sourcemud.ObjFile.Nodes.{
  value_none, value_string, value_int, value_bool, value_list, attr_node, begin_untyped,
  begin_typed, end_node, Node, node_at, read_nodes,
}
use sourcemud.ObjFile.Writer.{
  quote, spaces, bool_text, key, element_text, more_elements, elements_text, comment_text,
  block_lines, Call, put_attr, put_long, put_bool, put_list, put_block, put_begin, put_begin_attr,
  put_end, put_blank, put_comment, written,
}
use sourcemud.ObjFile.Tokens.{at_line}
use sourcemud.ObjFile.Lines.{
  get_node-quote, get_node-tostr, get_node-bool_text, get_node-begin, get_node-begin_attr,
  get_node-end,
}
use sourcemud.ObjFile.Lists.{read_back, get_node-list}
use sourcemud.ObjFile.Blocks.{scan-comment, get_node-block}
use sourcemud.ObjFile.Contents.{content, Content, attribute, contents_of, contents, IsFaithful}
use sourcemud.ObjFile.Texts.{call_text, call_level, calls_text, write_calls_text}
use sourcemud.ObjFile.Reads.{
  Reads, Gives, Skips, Reads-node, Reads-skip, Reads-newline, line-Reads, Reads-close,
}

-- A line with more text behind it.
line_behind :
    (a b c d e t : Text) → (a ++ (b ++ (c ++ (d ++ e)))) ++ t ≡ a ++ (b ++ (c ++ (d ++ (e ++ t))))
line_behind a b c d e t = simp append_assoc

list_behind :
    (b c d e f t : Text) → (b ++ (c ++ ((d ++ e) ++ f))) ++ t ≡ b ++ (c ++ (d ++ (e ++ (f ++ t))))
list_behind b c d e f t = simp append_assoc

block_behind :
    (a b c d e t : Text)
    → (a ++ ((b ++ (c ++ d)) ++ (a ++ e))) ++ t ≡ a ++ (b ++ (c ++ (d ++ (a ++ (e ++ t)))))
block_behind a b c d e t = simp append_assoc

head_behind : (a b c t : Text) → (a ++ (b ++ c)) ++ t ≡ a ++ (b ++ (c ++ t))
head_behind a b c t = simp append_assoc

end_content :
    (node : Node)
    → node.node_type ≡ end_node
    → node.ns ≡ []
    → node.name ≡ []
    → node.value ≡ value_none
    → content node ≡ record { node_type = end_node; ns = []; name = []; value = value_none }
end_content node type ns name value = rw (type, ns, name, value) refl

call-Reads :
    (k : ℕ) (c : Call) (t : Text) (cs : List Content)
    → IsFaithful c
    → Reads t cs
    → Reads (call_text k c ++ t) (contents_of c ++ cs)
unfolding call_text
call-Reads k (put_attr ns name text) t cs (ns_ok, name_ok, h) rest =
    line-Reads t (spaces k ++ (key ns name ++ (codes " = " ++ (quote text ++ (b'\n' ∷ t))))) _ cs _
      (line_behind (spaces k) (key ns name) (codes " = ") (quote text) (b'\n' ∷ []) t)
      (unfold Gives in
        λ line. (
          node_at attr_node ns name (value_string text) line,
          line,
          get_node-quote k line ns name text (b'\n' ∷ t) ns_ok name_ok h,
          refl,
        ))
      rest
call-Reads k (put_long ns name n) t cs (ns_ok, name_ok) rest =
    line-Reads t (spaces k ++ (key ns name ++ (codes " = " ++ (tostr n ++ (b'\n' ∷ t))))) _ cs _
      (line_behind (spaces k) (key ns name) (codes " = ") (tostr n) (b'\n' ∷ []) t)
      (unfold Gives in
        λ line. (
          node_at attr_node ns name (value_int (tostr n)) line,
          line,
          get_node-tostr k line ns name n (b'\n' ∷ t) ns_ok name_ok (unfold is_digit in refl),
          refl,
        ))
      rest
call-Reads k (put_bool ns name b) t cs (ns_ok, name_ok) rest =
    line-Reads t (spaces k ++ (key ns name ++ (codes " = " ++ (bool_text b ++ (b'\n' ∷ t))))) _ cs _
      (line_behind (spaces k) (key ns name) (codes " = ") (bool_text b) (b'\n' ∷ []) t)
      (unfold Gives in
        λ line. (
          node_at attr_node ns name (value_bool (bool_text b)) line,
          line,
          get_node-bool_text k line ns name b (b'\n' ∷ t) ns_ok name_ok
              (unfold is_name_char is_alnum is_alpha is_digit in refl),
          refl,
        ))
      rest
call-Reads k (put_list ns name []) t cs (ns_ok, name_ok, some_elements, h) rest =
    absurd (some_elements refl)
call-Reads k (put_list ns name (x ∷ xs)) t cs (ns_ok, name_ok, some_elements, h) rest =
    line-Reads t
      (key ns name
        ++ (codes " = [ " ++ (element_text x ++ (more_elements xs ++ (codes " ]" ++ (b'\n' ∷ t))))))
      _ cs _
      (unfold elements_text in
        list_behind (key ns name) (codes " = [ ") (element_text x) (more_elements xs) (codes " ]\n")
          t)
      (unfold Gives in
        λ line. (
          node_at attr_node ns name (value_list (map read_back (x ∷ xs))) line,
          line,
          get_node-list line ns name x xs (b'\n' ∷ t) ns_ok name_ok h,
          refl,
        ))
      rest
call-Reads k (put_block ns name text) t cs (ns_ok, name_ok, h) rest =
    let behind =
      spaces k
      ++ (key ns name
          ++ (codes " = "
              ++ (codes "%begin\n"
                  ++ (block_lines text ++ (spaces k ++ (codes "%end\n" ++ t)))))) in
    subst (λ u. Reads u (attribute ns name (value_string (block_lines text)) ++ cs))
      (sym (
        block_behind (spaces k) (key ns name) (codes " = %begin\n") (block_lines text)
          (codes "%end\n") t))
      (Reads-node behind t _ cs
        (unfold Gives in
          λ line.
            let (line', e) = get_node-block k line ns name text t ns_ok name_ok h in
            (node_at attr_node ns name (value_string (block_lines text)) line, line', e, refl))
        rest)
call-Reads k (put_begin ns name) t cs (ns_ok, name_ok) rest =
    line-Reads t (spaces k ++ (key ns name ++ (codes " {" ++ (b'\n' ∷ t)))) _ cs _
      (head_behind (spaces k) (key ns name) (codes " {\n") t)
      (unfold Gives in
        λ line. (
          node_at begin_untyped ns name value_none line,
          line,
          get_node-begin k line ns name (b'\n' ∷ t) ns_ok name_ok,
          refl,
        ))
      rest
call-Reads k (put_begin_attr ns name type) t cs (ns_ok, name_ok, type_ok) rest =
    line-Reads t
      (spaces k ++ (key ns name ++ (codes " = " ++ (type ++ (codes " {" ++ (b'\n' ∷ t)))))) _ cs _
      (line_behind (spaces k) (key ns name) (codes " = ") type (codes " {\n") t)
      (unfold Gives in
        λ line. (
          node_at begin_typed ns name (value_string type) line,
          line,
          get_node-begin_attr k line ns name type (b'\n' ∷ t) ns_ok name_ok type_ok,
          refl,
        ))
      rest
call-Reads k put_end t cs h rest =
    let level = (k + (2 ^ 64 - 1)) % 2 ^ 64 in
    line-Reads t (spaces level ++ (b'}' ∷ b'\n' ∷ t)) _ cs _
      (append_assoc (spaces level) (codes "}\n") t)
      (unfold Gives in
        λ line.
          let (node, e, type, ns, name, value) = get_node-end level line (b'\n' ∷ t) in
          (node, line, e, end_content node type ns name value))
      rest
call-Reads k put_blank t cs h rest = Reads-newline t cs rest
call-Reads k (put_comment []) t cs h rest = rest
call-Reads k (put_comment (c ∷ cs')) t cs h rest =
    subst (λ u. Reads u cs)
      (sym (line_behind (spaces k) [] (codes "# ") (comment_text k (c ∷ cs')) (b'\n' ∷ []) t))
      (Reads-skip _ t cs (unfold Skips in λ line. scan-comment k (c ∷ cs') t line) rest)

calls-Reads : (k : ℕ) (cs : List Call) → All IsFaithful cs → Reads (calls_text k cs) (contents cs)
unfolding calls_text
calls-Reads k [] h = Reads-close
calls-Reads k (c ∷ cs) h =
    call-Reads k c (calls_text (call_level k c) cs) (contents cs) h.0
      (calls-Reads (call_level k c) cs h.1)

-- A file that the writer wrote, by any calls whose names are valid and none of them `true` or `false`,
-- whose strings have no zero byte, whose lists are not empty and hold what can be read, and whose
-- blocks have no line that reads as their end, is read to its end, and gives the nodes of the calls in order; the
-- comments are left out, a block ends with a newline, and an empty element of a list is an empty string.
pub read_nodes-written :
    (cs : List Call) (fuel : ℕ)
    → All IsFaithful cs
    → length (contents cs) < fuel
    → (nodes : List Node) × (read_nodes fuel (at_line (written cs) 1) ≡ ok nodes)
      × (map content nodes ≡ contents cs)
unfolding written Reads
read_nodes-written cs fuel h enough =
    rw (write_calls_text cs (record { out = []; indent = 0 }) h) (calls-Reads 0 cs h 1 fuel enough)
