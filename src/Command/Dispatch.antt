-- ===== src/Command/Dispatch.antt =====
-- `_MCommand::call`: the choice among the command formats. Who may use a command is a parameter.
pub mod First
use sourcemud.Base.{
  ℕ, zero, suc, Bool, true, false, not, ◌&&◌, ◌||◌, Option, none, some, List, [], ◌∷◌, ◌++◌,
}
use sourcemud.Base.Options.{◌>>=◌}
use sourcemud.Base.Tests.{ltb, ◌==◌, if◌then◌else◌}
use sourcemud.Base.Text.{Text}
use sourcemud.Command.Format.{Node}
use sourcemud.Command.Match.{Args, Outcome, matched, scored, trymatch}
use sourcemud.Command.Words.{split_words}

-- A `CommandFormat`; a command goes by its number.
pub record Format : Type 0 where
  pub command : ℕ
  pub nodes : List Node
  pub has_ch_func : Bool
  pub has_ply_func : Bool

-- What a call does; all but the first two return 1.
pub data Called : Type 0 where
  ran_ch_func : Format → List Text → Called
  ran_ply_func : Format → List Text → Called
  no_words : Called
  no_func : Called
  usage : List ℕ → Called
  not_understood : Called

abbrev pub no_args : Args
no_args = record { argv = [] ∷ [] ∷ [] ∷ [] ∷ [] ∷ [] ∷ [] ∷ [] ∷ [] ∷ [] ∷ []; joined = 0 }

-- The function of a format that matches.
unfoldable pub run_format : Bool → Format → List Text → Called
run_format is_player f argv =
    if f.has_ch_func
    then ran_ch_func f argv
    else if f.has_ply_func && is_player
    then ran_ply_func f argv
    else no_func

has_command : ℕ → List ℕ → Bool
has_command c [] = false
has_command c (d ∷ ds) = c == d || has_command c ds

-- The best score so far, -1 being `none`, and the commands that have it.
better : Option ℕ → ℕ → Bool
better none k = not (k == 0)
better (some best) k = not (k == 0) && ltb best k

same_score : Option ℕ → ℕ → Bool
same_score none k = false
same_score (some best) k = k == best

unfoldable pub note_score : ℕ → ℕ → Option ℕ × List ℕ → Option ℕ × List ℕ
unfolding better same_score has_command
note_score c k (best, cmds) =
    if better best k
    then (some k, c ∷ [])
    else if same_score best k && not (has_command c cmds)
    then (best, cmds ++ (c ∷ []))
    else (best, cmds)

-- No format matches.
unfoldable pub no_match : Bool → List ℕ → Called
no_match is_player [] = not_understood
no_match is_player (c ∷ cs) = if is_player then usage (c ∷ cs) else not_understood

module _ (permitted : ℕ → Bool) (is_player : Bool) where
  -- One format that fails changes the best score only.
  unfoldable pub try_formats : List Text → Option ℕ × List ℕ → List Format → Called
  unfolding run_format note_score no_match
  try_formats words best [] = no_match is_player best.1
  try_formats words best (f ∷ fs) = elim (permitted f.command) [
    | false ↦ try_formats words best fs
    | true ↦
        let (r, a) = trymatch f.nodes words no_args in
        elim r [
          | matched ↦ run_format is_player f a.argv
          | scored k ↦ try_formats words (note_score f.command k best) fs
        ]
  ]

  call_words : List Format → List Text → Called
  unfolding try_formats
  call_words formats [] = no_words
  call_words formats (w ∷ ws) = try_formats (w ∷ ws) (none, []) formats

  -- `none` where the split of the line is a fault.
  unfoldable pub call : List Format → Text → Option Called
  unfolding call_words split_words
  call formats comm = split_words comm >>= λ words. some (call_words formats words)
