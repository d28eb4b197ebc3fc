-- ===== src/Command/Format.antt =====
-- `CommandFormatNode` and `CommandFormat::build`.
pub mod Bounds
use sourcemud.Base.{
  ℕ, zero, suc, ◌+◌, ◌-◌, ◌*◌, ◌%◌, ◌^◌, Bool, true, false, ◌||◌, ◌&&◌, Option, none, some, List,
  [], ◌∷◌, ◌++◌, map,
}
use sourcemud.Base.Lists.{length, take}
use sourcemud.Base.Options.{◌>>=◌}
use sourcemud.Base.Tests.{ltb, leb, ◌==◌, if◌then◌else◌}
use sourcemud.Base.Text.{Text}
use sourcemud.Strings.Chars.{is_alpha, is_digit, is_space}

pub data NodeType : Type 0 where
  word phrase literal : NodeType

-- An argument of -1 is `none`.
pub record Node : Type 0 where
  pub node_type : NodeType
  pub arg : Option ℕ
  pub opt : Bool
  pub literal : Text

abbrev pub max_command_args : ℕ
max_command_args = 10

-- What the scan of one chunk keeps.
pub record Chunk : Type 0 where
  pub chunk_arg : Option ℕ
  pub chunk_opt : Bool
  pub chunk_type : Option NodeType
  pub chunk_word : Text

abbrev pub no_chunk : Chunk
no_chunk = record { chunk_arg = none; chunk_opt = false; chunk_type = none; chunk_word = [] }

-- The bounds of an argument's index, an `int` of 32 bits.
unfoldable pub bound_arg : ℕ → ℕ
bound_arg arg =
    if leb (2 ^ 31) arg then 0 else if leb max_command_args arg then max_command_args - 1 else arg

-- Where the scan stands: between characters, in the digits behind a colon, or in letters.
pub data Scan : Type 0 where
  plain : Scan
  in_digits : ℕ → Scan
  in_letters : Text → Scan

-- A character that begins something.
scan_char : ℕ → Chunk → Scan × Chunk
unfolding is_alpha
scan_char c k =
    if c == b'?'
    then (plain, record k { chunk_opt = true })
    else if c == b'%'
    then (plain, record k { chunk_type = some word })
    else if c == b'*'
    then (plain, record k { chunk_type = some phrase })
    else if c == b':'
    then (in_digits 0, k)
    else if is_alpha c
    then (in_letters (c ∷ []), k)
    else (plain, k)

-- What the end of the digits or letters stores.
unfoldable pub close_scan : Scan → Chunk → Chunk
unfolding bound_arg
close_scan plain k = k
close_scan (in_digits arg) k = record k { chunk_arg = some (bound_arg arg) }
close_scan (in_letters text) k = record k { chunk_word = text; chunk_type = some literal }

-- One character: it goes on with the digits or letters, or it ends them and is scanned itself.
unfoldable pub scan_step : Scan → ℕ → Chunk → Scan × Chunk
unfolding scan_char close_scan is_digit is_alpha
scan_step plain c k = scan_char c k
scan_step (in_digits arg) c k =
    if is_digit c
    then (in_digits ((arg * 10 + (c - b'0')) % 2 ^ 32), k)
    else scan_char c (close_scan (in_digits arg) k)
scan_step (in_letters text) c k =
    if is_alpha c
    then (in_letters (text ++ (c ∷ [])), k)
    else scan_char c (close_scan (in_letters text) k)

unfoldable pub scan_chunk : Scan → Text → Chunk → Chunk
unfolding scan_step close_scan
scan_chunk state [] k = close_scan state k
scan_chunk state (c ∷ cs) k = let (state', k') = scan_step state c k in scan_chunk state' cs k'

-- Only a literal keeps its text.
unfoldable pub node_text : NodeType → Text → Text
node_text literal text = text
node_text _ text = []

-- The node of a chunk; one without a type is an error.
unfoldable pub typed_node : Chunk → Option NodeType → Option Node
unfolding node_text
typed_node k none = none
typed_node k (some t) = some (record {
  node_type = t;
  arg = k.chunk_arg;
  opt = k.chunk_opt;
  literal = node_text t k.chunk_word;
})

-- `getArg`, all of them: the maximal runs of characters that are no spaces, `current` the one that
-- the scan is in.
unfoldable pub get_args : Text → Text → List Text
get_args [] [] = []
get_args (d ∷ ds) [] = (d ∷ ds) ∷ []
get_args current (c ∷ cs) = elim (is_space c) [
  | false ↦ get_args (current ++ (c ∷ [])) cs
  | true ↦ elim current [ [] ↦ get_args [] cs | d ∷ ds ↦ (d ∷ ds) ∷ get_args [] cs ]
]

build_nodes : List Text → List Node × Bool
unfolding typed_node scan_chunk
build_nodes [] = ([], true)
build_nodes (w ∷ ws) =
    let k = scan_chunk plain w no_chunk in
    elim (typed_node k k.chunk_type) [
      | none ↦ ([], false)
      | some n ↦ let (ns, fine) = build_nodes ws in (n ∷ ns, fine)
    ]

-- The nodes that the call pushes, and whether it returns 0.
unfoldable pub build : Text → List Node × Bool
unfolding build_nodes get_args
build format = build_nodes (get_args [] (take 1023 format))
