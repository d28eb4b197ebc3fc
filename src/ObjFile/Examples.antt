-- ===== src/ObjFile/Examples.antt =====
-- Runs of the reader and the writer of object files.
use sourcemud.Base.{◌≡◌, ◌≢◌, refl, inr, true, List, [], ◌∷◌, map, arith}
use sourcemud.Base.Int.{negsuc}
use sourcemud.Base.Text.{codes, text_eq}
use sourcemud.Strings.Chars.{is_alpha, is_alnum, is_digit, is_space}
use sourcemud.Strings.Strip.{strip, strip_back}
use sourcemud.ObjFile.Outcome.{ok, thrown, endless}
use sourcemud.ObjFile.Reader.{Reader, read_token, name_token, is_block_end}
use sourcemud.ObjFile.Blocks.{has_no_end}
use sourcemud.ObjFile.Nodes.{Node, get_node, consume, read_nodes, no_element, string_element}
use sourcemud.ObjFile.Writer.{
  Call, put_attr, put_long, put_bool, put_list, put_block, put_begin, put_begin_attr, put_end,
  put_blank, put_comment, written, valid_name, all_name_chars, ends_with_newline, block_lines,
}
use sourcemud.ObjFile.Tokens.{at_line}
use sourcemud.ObjFile.Contents.{content, contents}
use sourcemud.ObjFile.Termination.{read_nodes-ne-endless, get_node-comment}
use sourcemud.ObjFile.RoundTrip.{read_nodes-written}

-- A room with an exit, as the server writes them.
abbrev a_room : List Call
a_room =
    put_comment (codes "the hall\nof the keep")
    ∷ put_begin_attr (codes "zone") (codes "room") (codes "hall")
    ∷ put_attr (codes "room") (codes "name") (codes "a \"great\" hall")
    ∷ put_long (codes "room") (codes "coins") (negsuc 11)
    ∷ put_begin (codes "room") (codes "portal")
    ∷ put_bool (codes "portal") (codes "hidden") true
    ∷ put_end
    ∷ put_blank
    ∷ put_list (codes "room") (codes "tags") (string_element (codes "cold") ∷ no_element ∷ [])
    ∷ put_block (codes "room") (codes "desc") (codes "Stone walls.\n A fire.")
    ∷ put_end
    ∷ []

desc_no_end : has_no_end [] (block_lines (codes "Stone walls.\n A fire.")) ≡ true
unfolding has_no_end is_block_end ends_with_newline text_eq strip strip_back is_space
desc_no_end = refl

read_nodes-written_example :
    (nodes : List Node) × (read_nodes 20 (at_line (written a_room) 1) ≡ ok nodes)
    × (map content nodes ≡ contents a_room)
read_nodes-written_example =
    read_nodes-written a_room 20
      (unfold valid_name all_name_chars is_alnum is_alpha is_digit name_token text_eq in
        ground (arith, desc_no_end))
      (omega arith)

abbrev one_line : Reader
one_line = record { rest = codes "a.b = 1 # c\n"; line = 1 }

read_nodes-ne-endless_example :
    (read_nodes 20 one_line ≢ endless) × (consume 20 3 one_line ≢ endless)
read_nodes-ne-endless_example =
    read_nodes-ne-endless 20 3 one_line (inr (unfold ends_with_newline in refl)) (omega arith)

get_node-comment_example : get_node (record { rest = codes "# end"; line = 1 }) ≡ endless
get_node-comment_example = get_node-comment 1 (codes " end") (ground arith)

-- An empty list is written as the reader does not take it.
get_node_empty_list :
    get_node (at_line (written (put_list (codes "a") (codes "b") [] ∷ [])) 1)
    ≡ thrown (codes "File reader error: value expected after =")
unfolding get_node written read_token is_alpha is_alnum is_space text_eq
get_node_empty_list = refl

-- So is an attribute with the name `true`.
get_node-true :
    get_node (at_line (written (put_bool (codes "a") (codes "true") true ∷ [])) 1)
    ≡ thrown (codes "File reader error: name expected after .")
unfolding get_node written read_token is_alpha is_alnum is_space text_eq
get_node-true = refl
