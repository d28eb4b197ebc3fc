-- ===== src/ObjFile/Texts.antt =====
-- The text that each call of File::Writer writes, and the text of a whole file.
use mathlib.Core.List.{append_assoc, append-nil}
use sourcemud.Base.{ℕ, ◌+◌, ◌-◌, ◌%◌, ◌^◌, ◌≡◌, refl, ap, ◌∙◌, sym, List, [], ◌∷◌, ◌++◌}
use sourcemud.Base.Lists.{All}
use sourcemud.Base.Text.{Text, codes}
use sourcemud.Strings.Numbers.{tostr}
use sourcemud.ObjFile.Writer.{
  Writer, quote, spaces, bool_text, key, attr_line, elements_text, comment_text, block_lines, attr,
  attr_long, attr_bool, attr_list, block, begin, begin_attr, end_object, comment, close, Call,
  put_attr, put_long, put_bool, put_list, put_block, put_begin, put_begin_attr, put_end, put_blank,
  put_comment, write_call, write_calls,
}
use sourcemud.ObjFile.Contents.{IsFaithful}

-- What a call adds to the file at a level, and the level behind it.
unfoldable pub call_text : ℕ → Call → Text
call_text k (put_attr ns name text) = spaces k ++ attr_line ns name (quote text)
call_text k (put_long ns name n) = spaces k ++ attr_line ns name (tostr n)
call_text k (put_bool ns name b) = spaces k ++ attr_line ns name (bool_text b)
call_text k (put_list ns name xs) =
    key ns name ++ (codes " = [ " ++ (elements_text xs ++ codes " ]\n"))
call_text k (put_block ns name text) =
    spaces k
    ++ ((key ns name ++ (codes " = %begin\n" ++ block_lines text)) ++ (spaces k ++ codes "%end\n"))
call_text k (put_begin ns name) = spaces k ++ (key ns name ++ codes " {\n")
call_text k (put_begin_attr ns name type) =
    spaces k ++ (key ns name ++ (codes " = " ++ (type ++ codes " {\n")))
call_text k put_end = spaces ((k + (2 ^ 64 - 1)) % 2 ^ 64) ++ codes "}\n"
call_text k put_blank = b'\n' ∷ []
call_text k (put_comment []) = []
call_text k (put_comment (c ∷ cs)) =
    spaces k ++ (codes "# " ++ (comment_text k (c ∷ cs) ++ (b'\n' ∷ [])))

unfoldable pub call_level : ℕ → Call → ℕ
call_level k (put_begin ns name) = (k + 1) % 2 ^ 64
call_level k (put_begin_attr ns name type) = (k + 1) % 2 ^ 64
call_level k put_end = (k + (2 ^ 64 - 1)) % 2 ^ 64
call_level k _ = k

add_text : Text → ℕ → Writer → Writer
add_text text k w = record { out = w.out ++ text; indent = k }

put_twice :
    (a b : Text) (k : ℕ) (w : Writer)
    → record { out = (w.out ++ a) ++ b; indent = k } ≡ add_text (a ++ b) k w
unfolding add_text
put_twice a b k w = ap (λ u. record { out = u; indent = k }) (append_assoc w.out a b)

put_four :
    (a b c : Text) (w : Writer)
    → record { out = (((w.out ++ a) ++ b) ++ a) ++ c; indent = w.indent }
      ≡ add_text (a ++ (b ++ (a ++ c))) w.indent w
unfolding add_text
put_four a b c w = ap (λ u. record { out = u; indent = w.indent }) (simp append_assoc)

write_call_text :
    (c : Call) (w : Writer)
    → IsFaithful c
    → write_call c w ≡ add_text (call_text w.indent c) (call_level w.indent c) w
unfolding write_call call_text call_level
write_call_text (put_attr ns name text) w (ns_ok, name_ok, h) =
    unfold attr in
    rw (ns_ok.0, name_ok.0)
      (put_twice (spaces w.indent) (attr_line ns name (quote text)) w.indent w)
write_call_text (put_long ns name n) w (ns_ok, name_ok) =
    unfold attr_long in
    rw (ns_ok.0, name_ok.0) (put_twice (spaces w.indent) (attr_line ns name (tostr n)) w.indent w)
write_call_text (put_bool ns name b) w (ns_ok, name_ok) =
    unfold attr_bool in
    rw (ns_ok.0, name_ok.0)
      (put_twice (spaces w.indent) (attr_line ns name (bool_text b)) w.indent w)
write_call_text (put_list ns name xs) w (ns_ok, name_ok, some_elements, h) =
    unfold attr_list add_text in rw (ns_ok.0, name_ok.0) refl
write_call_text (put_block ns name text) w (ns_ok, name_ok, h) =
    unfold block in
    rw (ns_ok.0, name_ok.0)
      (put_four (spaces w.indent) (key ns name ++ (codes " = %begin\n" ++ block_lines text))
        (codes "%end\n") w)
write_call_text (put_begin ns name) w (ns_ok, name_ok) =
    unfold begin in
    rw (ns_ok.0, name_ok.0)
      (put_twice (spaces w.indent) (key ns name ++ codes " {\n") ((w.indent + 1) % 2 ^ 64) w)
write_call_text (put_begin_attr ns name type) w (ns_ok, name_ok, type_ok) =
    unfold begin_attr in
    rw (ns_ok.0, name_ok.0, type_ok.0)
      (put_twice (spaces w.indent) (key ns name ++ (codes " = " ++ (type ++ codes " {\n")))
        ((w.indent + 1) % 2 ^ 64) w)
write_call_text put_end w h =
    unfold end_object in
    put_twice (spaces ((w.indent + (2 ^ 64 - 1)) % 2 ^ 64)) (codes "}\n")
      ((w.indent + (2 ^ 64 - 1)) % 2 ^ 64) w
write_call_text put_blank w h = unfold add_text in refl
write_call_text (put_comment []) w h =
    unfold comment add_text in
    ap (λ u. record { out = u; indent = w.indent }) (sym (append-nil w.out))
write_call_text (put_comment (c ∷ cs)) w h =
    unfold comment in
    put_twice (spaces w.indent) (codes "# " ++ (comment_text w.indent (c ∷ cs) ++ (b'\n' ∷ [])))
      w.indent w

-- The text of calls from a level on, with what closes the file.
unfoldable pub calls_text : ℕ → List Call → Text
unfolding call_text call_level
calls_text k [] = codes "# vim: set shiftwidth=2 tabstop=2 expandtab:\n"
calls_text k (c ∷ cs) = call_text k c ++ calls_text (call_level k c) cs

pub write_calls_text :
    (cs : List Call) (w : Writer)
    → All IsFaithful cs
    → close (write_calls cs w) ≡ w.out ++ calls_text w.indent cs
unfolding write_calls calls_text
write_calls_text [] w h = unfold close in refl
write_calls_text (c ∷ cs) w h =
    ap (λ v. close (write_calls cs v)) (write_call_text c w h.0)
    ∙ write_calls_text cs (add_text (call_text w.indent c) (call_level w.indent c) w) h.1
    ∙ unfold add_text in
      append_assoc w.out (call_text w.indent c) (calls_text (call_level w.indent c) cs)
