-- ===== src/Command/Format/Bounds.antt =====
-- The argument indices of a built format.
use sourcemud.Base.{
  ℕ, ◌<◌, ◌≡◌, subst, inl, inr, Bool, true, false, Option, none, some, List, [], ◌∷◌, arith,
}
use sourcemud.Base.Lists.{All, take}
use sourcemud.Base.Tests.{if◌then◌else◌, Option-cases}
use sourcemud.Base.Text.{Text}
use sourcemud.Strings.Chars.{is_alpha, is_digit}
use sourcemud.Command.Format.{
  NodeType, Node, Chunk, no_chunk, Scan, plain, in_digits, in_letters, bound_arg, scan_char,
  close_scan, scan_step, scan_chunk, typed_node, get_args, build_nodes, build,
}

-- No index, or one of the ten arguments.
abbrev pub IsIndex : Option ℕ → Type 0
IsIndex none = Unit {0}
IsIndex (some i) = i < 10

bound_arg-lt : (arg : ℕ) → bound_arg arg < 10
unfolding bound_arg
bound_arg-lt arg = ground arith

close_scan-IsIndex :
    (s : Scan) (k : Chunk) → IsIndex k.chunk_arg → IsIndex (close_scan s k).chunk_arg
unfolding close_scan
close_scan-IsIndex plain k h = h
close_scan-IsIndex (in_digits arg) k h = bound_arg-lt arg
close_scan-IsIndex (in_letters text) k h = h

scan_char-IsIndex : (c : ℕ) (k : Chunk) → IsIndex k.chunk_arg → IsIndex (scan_char c k).1.chunk_arg
unfolding scan_char
scan_char-IsIndex c k h = ground (arith, h)

either-IsIndex :
    (b : Bool) (r s : Scan × Chunk)
    → IsIndex r.1.chunk_arg
    → IsIndex s.1.chunk_arg
    → IsIndex (if b then r else s).1.chunk_arg
either-IsIndex true r s h h' = h
either-IsIndex false r s h h' = h'

scan_step-IsIndex :
    (s : Scan) (c : ℕ) (k : Chunk) → IsIndex k.chunk_arg → IsIndex (scan_step s c k).1.chunk_arg
unfolding scan_step
scan_step-IsIndex plain c k h = scan_char-IsIndex c k h
scan_step-IsIndex (in_digits arg) c k h =
    either-IsIndex (is_digit c) _ _ h
      (scan_char-IsIndex c (close_scan (in_digits arg) k) (close_scan-IsIndex (in_digits arg) k h))
scan_step-IsIndex (in_letters text) c k h = either-IsIndex (is_alpha c) _ _ h (
    scan_char-IsIndex c (close_scan (in_letters text) k) (close_scan-IsIndex (in_letters text) k h))

scan_chunk-IsIndex :
    (s : Scan) (w : Text) (k : Chunk) → IsIndex k.chunk_arg → IsIndex (scan_chunk s w k).chunk_arg
unfolding scan_chunk
scan_chunk-IsIndex s [] k h = close_scan-IsIndex s k h
scan_chunk-IsIndex s (c ∷ cs) k h =
    scan_chunk-IsIndex (scan_step s c k).0 cs (scan_step s c k).1 (scan_step-IsIndex s c k h)

typed_node-IsIndex :
    (k : Chunk) (t : Option NodeType) (n : Node)
    → typed_node k t ≡ some n
    → IsIndex k.chunk_arg
    → IsIndex n.arg
unfolding typed_node
typed_node-IsIndex k none n e h = cc
typed_node-IsIndex k (some t) n e h = let same : k.chunk_arg ≡ n.arg = cc in subst IsIndex same h

build_nodes-IsIndex : (ws : List Text) → All (λ n. IsIndex n.arg) (build_nodes ws).0
unfolding build_nodes
build_nodes-IsIndex [] = tt
build_nodes-IsIndex (w ∷ ws) =
    let k = scan_chunk plain w no_chunk in
    elim (Option-cases (typed_node k k.chunk_type)) [
      | inl fails ↦ rw (fails, build_nodes) tt
      | inr (n, e) ↦
          rw (e, build_nodes)
            (
              typed_node-IsIndex k k.chunk_type n e (scan_chunk-IsIndex plain w no_chunk tt),
              build_nodes-IsIndex ws,
            )
    ]

-- Every argument index of a built format is one of the ten arguments, whatever digits the format has.
pub build-IsIndex : (format : Text) → All (λ n. IsIndex n.arg) (build format).0
unfolding build
build-IsIndex format = build_nodes-IsIndex (get_args [] (take 1023 format))
