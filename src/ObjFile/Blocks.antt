-- ===== src/ObjFile/Blocks.antt =====
-- The reader on the blocks and comments of the writer.
use mathlib.Core.List.{append_assoc, append-nil}
use sourcemud.Base.{
  ℕ, zero, suc, ◌≡◌, refl, ap, ◌∙◌, Bool, true, false, not, ◌&&◌, some, inl, inr, [], ◌∷◌, ◌++◌,
  arith,
}
use sourcemud.Base.Lists.{All}
use sourcemud.Base.Tests.{◌==◌, Bool-cases}
use sourcemud.Base.Text.{Text, codes, text_eq}
use sourcemud.Strings.Chars.{is_alpha, is_alnum, is_digit, is_space}
use sourcemud.Strings.Split.{Lacks}
use sourcemud.Strings.Strip.{strip_back, strip_indented}
use sourcemud.ObjFile.Outcome.{ok}
use sourcemud.ObjFile.Reader.{
  token_string, scan, read_block, more_text, is_block_end, symbol, token_from, other_token,
  read_token, next_line,
}
use sourcemud.ObjFile.Nodes.{value_string, attr_node, node_at, scalar, set_value, get_node}
use sourcemud.ObjFile.Writer.{spaces, comment_text, ends_with_newline, block_lines, key}
use sourcemud.ObjFile.Lines.{IsReadable, get_node-attr}
use sourcemud.ObjFile.Tokens.{scan-spaces, at_line}

scan_more :
    (c line : ℕ) (t : Text) → (c == b'\n') ≡ false → scan true line (c ∷ t) ≡ scan true line t
unfolding scan
scan_more c line t plain = rw (plain, scan) refl

scan-next_line :
    (k line : ℕ) (t : Text)
    → scan true line (b'\n' ∷ (spaces k ++ (b'#' ∷ b' ' ∷ t))) ≡ scan true (next_line line) t
scan-next_line k line t =
    unfold scan in scan-spaces k (next_line line) (b'#' ∷ b' ' ∷ t) ∙ unfold scan is_space in refl

scan_hash : (line : ℕ) (t : Text) → scan false line (b'#' ∷ b' ' ∷ t) ≡ scan true line t
unfolding scan is_space
scan_hash line t = refl

scan-comment_text :
    (k : ℕ) (s t : Text) (line : ℕ)
    → (line' : ℕ) × (scan true line (comment_text k s ++ (b'\n' ∷ t)) ≡ scan false line' t)
unfolding comment_text
scan-comment_text k [] t line = (next_line line, unfold scan in refl)
scan-comment_text k (c ∷ cs) t line = elim (Bool-cases (c == 0)) [
  | inl nul ↦ (next_line line, rw (nul, comment_text) (unfold scan in refl))
  | inr some_byte ↦ elim (Bool-cases (c == b'\n')) [
    | inl newline ↦
        let (line', e) = scan-comment_text k cs t (next_line line) in
        (
          line',
          rw (some_byte, comment_text)
              (rw newline (
                ap (λ u. scan true line (b'\n' ∷ u))
                  (append_assoc (spaces k) (b'#' ∷ b' ' ∷ comment_text k cs) (b'\n' ∷ t))
                ∙ scan-next_line k line (comment_text k cs ++ (b'\n' ∷ t))
                ∙ e)),
        )
    | inr plain ↦
        let (line', e) = scan-comment_text k cs t line in
        (
          line',
          rw (some_byte, comment_text)
              (rw plain (scan_more c line (comment_text k cs ++ (b'\n' ∷ t)) plain ∙ e)),
        )
  ]
]

-- A comment is skipped, at whatever level it stands.
pub scan-comment :
    (k : ℕ) (s t : Text) (line : ℕ)
    → (line' : ℕ) × (scan false line (spaces k ++ (codes "# " ++ (comment_text k s ++ (b'\n' ∷ t))))
        ≡ scan false line' t)
scan-comment k s t line =
    let (line', e) = scan-comment_text k s t line in
    (
      line',
      scan-spaces k line (codes "# " ++ (comment_text k s ++ (b'\n' ∷ t)))
          ∙ scan_hash line (comment_text k s ++ (b'\n' ∷ t))
          ∙ e,
    )

-- No line of a text, of which `cur` stands before, ends a block.
unfoldable pub has_no_end : Text → Text → Bool
has_no_end cur [] = true
has_no_end cur (c ∷ cs) = elim (c == b'\n') [
  | true ↦ not (is_block_end (cur ++ (c ∷ []))) && has_no_end [] cs
  | false ↦ has_no_end (cur ++ (c ∷ [])) cs
]

-- The text behind the last newline is empty.
is_closed : Text → Text → Bool
is_closed [] [] = true
is_closed (x ∷ xs) [] = false
is_closed cur (c ∷ cs) = elim (c == b'\n') [
  | true ↦ is_closed [] cs
  | false ↦ is_closed (cur ++ (c ∷ [])) cs
]

read_block_plain :
    (cur t : Text) (c line : ℕ)
    → (c == b'\n') ≡ false
    → read_block cur line (c ∷ t) ≡ read_block (cur ++ (c ∷ [])) line t
unfolding read_block
read_block_plain cur t c line plain = rw (plain, read_block) refl

read_block_run :
    (p cur t : Text) (line : ℕ)
    → Lacks b'\n' p
    → read_block cur line (p ++ t) ≡ read_block (cur ++ p) line t
read_block_run [] cur t line h = rw (append-nil cur) refl
read_block_run (c ∷ p) cur t line h =
    read_block_plain cur (p ++ t) c line (ground (arith, h.0))
    ∙ read_block_run p (cur ++ (c ∷ [])) t line h.1
    ∙ ap (λ u. read_block u line t) (append_assoc cur (c ∷ []) p)

spaces-All : (k : ℕ) → All (λ x. is_space x ≡ true) (spaces k) × Lacks b'\n' (spaces k)
unfolding spaces is_space
spaces-All zero = (tt, tt)
spaces-All (suc k) =
    let (a, b) = spaces-All k in ((refl, (refl, a)), (omega arith, (omega arith, b)))

block_end_lem : (k : ℕ) → is_block_end (spaces k ++ codes "%end\n") ≡ true
unfolding is_block_end
block_end_lem k =
    rw
      (strip_indented (spaces k) (codes "%end\n") b'%' b'e' (codes "nd") (spaces-All k).0
        (unfold is_space in refl) (unfold strip_back is_space in refl))
      (unfold text_eq in refl)

not_and : (a b : Bool) → (not a && b) ≡ true → (a ≡ false) × (b ≡ true)
not_and false b h = (refl, h)
not_and true b h = cc

read_block_ends :
    (cur t : Text) (line : ℕ)
    → is_block_end (cur ++ (b'\n' ∷ [])) ≡ true
    → read_block cur line (b'\n' ∷ t) ≡ ([], at_line t (next_line line))
unfolding read_block
read_block_ends cur t line e = rw (e, read_block) refl

read_block_line :
    (cur t : Text) (line : ℕ)
    → is_block_end (cur ++ (b'\n' ∷ [])) ≡ false
    → read_block cur line (b'\n' ∷ t)
      ≡ more_text (cur ++ (b'\n' ∷ [])) (read_block [] (next_line line) t)
unfolding read_block
read_block_line cur t line e = rw (e, read_block) refl

-- The line that ends a block.
read_block-end :
    (k : ℕ) (t : Text) (line : ℕ)
    → read_block [] line (spaces k ++ (codes "%end\n" ++ t)) ≡ ([], at_line t (next_line line))
read_block-end k t line =
    read_block_run (spaces k) [] (codes "%end\n" ++ t) line (spaces-All k).1
    ∙ read_block_run (codes "%end") (spaces k) (b'\n' ∷ t) line (omega arith)
    ∙ read_block_ends (spaces k ++ codes "%end") t line
        (ap is_block_end (append_assoc (spaces k) (codes "%end") (b'\n' ∷ [])) ∙ block_end_lem k)

-- The lines of a block up to its end.
read_block-lines :
    (k : ℕ) (b cur t : Text) (line : ℕ)
    → has_no_end cur b ≡ true
    → is_closed cur b ≡ true
    → (line' : ℕ) × (read_block cur line (b ++ (spaces k ++ (codes "%end\n" ++ t)))
        ≡ (cur ++ b, at_line t line'))
unfolding is_closed has_no_end
read_block-lines k [] [] t line free closed = (next_line line, read_block-end k t line)
read_block-lines k [] (x ∷ xs) t line free closed = cc
read_block-lines k (c ∷ cs) cur t line free closed = elim (Bool-cases (c == b'\n')) [
  | inr plain ↦
      let free' : has_no_end (cur ++ (c ∷ [])) cs ≡ true = rw (plain, has_no_end) at free in
      let closed' : is_closed (cur ++ (c ∷ [])) cs ≡ true = rw (plain, is_closed) at closed in
      let (line', e) = read_block-lines k cs (cur ++ (c ∷ [])) t line free' closed' in
      (
        line',
        read_block_plain cur (cs ++ (spaces k ++ (codes "%end\n" ++ t))) c line plain
            ∙ e
            ∙ ap (λ u. (u, at_line t line')) (append_assoc cur (c ∷ []) cs),
      )
  | inl newline ↦
      let same : c ≡ b'\n' = ground arith in
      let free' : (not (is_block_end (cur ++ (c ∷ []))) && has_no_end [] cs) ≡ true =
        rw (newline, has_no_end) at free in
      let (goes_on, free'') = not_and (is_block_end (cur ++ (c ∷ []))) (has_no_end [] cs) free' in
      let closed' : is_closed [] cs ≡ true = rw (newline, is_closed) at closed in
      let (line', e) = read_block-lines k cs [] t (next_line line) free'' closed' in
      (
        line',
        rw same (
            read_block_line cur (cs ++ (spaces k ++ (codes "%end\n" ++ t))) line
              (rw same at goes_on)
            ∙ ap (more_text (cur ++ (b'\n' ∷ []))) e
            ∙ ap (λ u. (u, at_line t line')) (append_assoc cur (b'\n' ∷ []) cs)),
      )
]

is_closed_newline : (b cur : Text) → is_closed cur (b ++ (b'\n' ∷ [])) ≡ true
unfolding is_closed
is_closed_newline [] cur = refl
is_closed_newline (c ∷ cs) cur = elim (Bool-cases (c == b'\n')) [
  | inl newline ↦ rw (newline, is_closed) (is_closed_newline cs [])
  | inr plain ↦ rw (plain, is_closed) (is_closed_newline cs (cur ++ (c ∷ [])))
]

is_closed_ends : (b cur : Text) → ends_with_newline b ≡ true → is_closed cur b ≡ true
unfolding is_closed ends_with_newline
is_closed_ends [] cur h = cc
is_closed_ends (c ∷ []) cur h = rw (h, is_closed) refl
is_closed_ends (c ∷ d ∷ ds) cur h = elim (Bool-cases (c == b'\n')) [
  | inl newline ↦ rw (newline, is_closed) (is_closed_ends (d ∷ ds) [] h)
  | inr plain ↦ rw (plain, is_closed) (is_closed_ends (d ∷ ds) (cur ++ (c ∷ [])) h)
]

is_closed_lines : (text : Text) → is_closed [] (block_lines text) ≡ true
is_closed_lines text = elim (Bool-cases (ends_with_newline text)) [
  | inl ends ↦ rw (ends, append-nil text) (is_closed_ends text [] ends)
  | inr open_end ↦ rw open_end (is_closed_newline text [])
]

read_token-begin_block :
    (t : Text) (line : ℕ)
    → read_token (at_line (codes "%begin\n" ++ t) line)
      ≡ ok (
          let block = read_block [] (next_line line) t in
          record { token = token_string; text = block.0; behind = block.1 })
unfolding read_token scan token_from symbol is_space
read_token-begin_block t line = unfold other_token is_digit is_alpha is_alnum text_eq in refl

-- The lines of a block, no line of which reads as its end.
pub get_node-block :
    (k line : ℕ) (ns name text t : Text)
    → IsReadable ns
    → IsReadable name
    → has_no_end [] (block_lines text) ≡ true
    → (line' : ℕ) × (get_node (
          at_line
            (spaces k
              ++ (key ns name
                  ++ (codes " = "
                      ++ (codes "%begin\n"
                          ++ (block_lines text ++ (spaces k ++ (codes "%end\n" ++ t)))))))
            line)
        ≡ ok (
          some (node_at attr_node ns name (value_string (block_lines text)) line),
          at_line t line',
        ))
get_node-block k line ns name text t ns_ok name_ok free =
    let (line', e) =
      read_block-lines k (block_lines text) [] t (next_line line) free (is_closed_lines text) in
    let behind = block_lines text ++ (spaces k ++ (codes "%end\n" ++ t)) in
    (
      line',
      get_node-attr k line ns name (codes "%begin\n") behind
          (record { token = token_string; text = block_lines text; behind = at_line t line' })
          (value_string (block_lines text)) (at_line t line') ns_ok name_ok
          (read_token-begin_block behind line
            ∙ ap (λ b. ok (record { token = token_string; text = b.0; behind = b.1 })) e)
          refl (unfold set_value scalar in refl),
    )
