-- ===== src/Command/Dispatch/First.antt =====
-- Which format a call runs.
use sourcemud.Base.{
  ℕ, ◌≡◌, ◌⊎◌, refl, Bool, true, false, inl, inr, Option, none, some, List, [], ◌∷◌, ◌++◌,
}
use sourcemud.Base.Lists.{All}
use sourcemud.Base.Tests.{Bool-cases}
use sourcemud.Base.Text.{Text}
use sourcemud.Command.Dispatch.{
  Format, Called, ran_ch_func, ran_ply_func, no_func, usage, not_understood, no_args, run_format,
  note_score, no_match, try_formats, call_words, call,
}
use sourcemud.Command.Match.Grammar.{Derives, Outcome-cases, trymatch-Derives}
use sourcemud.Command.Match.{trymatch}
use sourcemud.Command.Words.{split_words}

module _ (permitted : ℕ → Bool) (is_player : Bool) where
  -- A format that the caller may not use, or that does not match.
  abbrev pub Passed : List Text → Format → Type 0
  Passed words f = (permitted f.command ≡ false) ⊎ (¬ Derives f.nodes words)

  try_formats_first :
      (words : List Text) (best : Option ℕ × List ℕ) (front : List Format) (f : Format)
      (back : List Format)
      → All (Passed words) front
      → permitted f.command ≡ true
      → Derives f.nodes words
      → try_formats permitted is_player words best (front ++ (f ∷ back))
        ≡ run_format is_player f (trymatch f.nodes words no_args).1.argv
  unfolding try_formats
  try_formats_first words best [] f back all may d =
      rw (may, (trymatch-Derives f.nodes words no_args).1 d, try_formats) refl
  try_formats_first words best (g ∷ front) f back all may d =
      elim (Bool-cases (permitted g.command)) [
        | inr hidden ↦
            rw (hidden, try_formats) (try_formats_first words best front f back all.1 may d)
        | inl shown ↦ elim (Outcome-cases (trymatch g.nodes words no_args).0) [
          | inr (k, e) ↦
              rw (shown, e, try_formats)
                (try_formats_first words (note_score g.command k best) front f back all.1 may d)
          | inl m ↦ absurd (elim all.0 [
            | inl hidden ↦ cc
            | inr fails ↦ fails ((trymatch-Derives g.nodes words no_args).0 m)
          ])
        ]
      ]

  -- What a format that matches runs.
  abbrev pub Runs : Format → List Text → Called → Type 0
  Runs f argv r =
      ((f.has_ch_func ≡ true) × (r ≡ ran_ch_func f argv))
      ⊎ ((f.has_ch_func ≡ false)
          × (f.has_ply_func ≡ true)
          × (is_player ≡ true)
          × (r ≡ ran_ply_func f argv))
      ⊎ ((f.has_ch_func ≡ false) × ((f.has_ply_func ≡ false) ⊎ (is_player ≡ false)) × (r ≡ no_func))

  run_format-Runs : (f : Format) (argv : List Text) → Runs f argv (run_format is_player f argv)
  unfolding run_format
  run_format-Runs f argv = elim (Bool-cases f.has_ch_func) [
    | inl ch ↦ inl (ch, rw ch refl)
    | inr no_ch ↦ elim (Bool-cases f.has_ply_func) [
      | inr no_ply ↦ inr (inr (no_ch, inl no_ply, rw (no_ch, no_ply) refl))
      | inl ply ↦ elim (Bool-cases is_player) [
        | inl player ↦ inr (inl (no_ch, ply, player, rw (no_ch, ply, player) refl))
        | inr other ↦ inr (inr (no_ch, inr other, rw (no_ch, ply, other) refl))
      ]
    ]
  ]

  -- A call takes the first format that the caller may use and that the words of the line match. With the
  -- arguments of that match it runs the format's function for characters if it has one, else its
  -- function for players if it has that and the caller is a player, and else it runs nothing.
  pub call_first :
      (comm w : Text) (ws : List Text) (front : List Format) (f : Format) (back : List Format)
      → split_words comm ≡ some (w ∷ ws)
      → All (Passed (w ∷ ws)) front
      → permitted f.command ≡ true
      → Derives f.nodes (w ∷ ws)
      → (r : Called) × (call permitted is_player (front ++ (f ∷ back)) comm ≡ some r)
        × Runs f (trymatch f.nodes (w ∷ ws) no_args).1.argv r
  unfolding call call_words
  call_first comm w ws front f back e all may d = (
    run_format is_player f (trymatch f.nodes (w ∷ ws) no_args).1.argv,
    rw (e, try_formats_first (w ∷ ws) (none, []) front f back all may d),
    run_format-Runs f (trymatch f.nodes (w ∷ ws) no_args).1.argv,
  )

  -- Nothing is run.
  abbrev pub IsRefused : Called → Type 0
  IsRefused (usage cmds) = Unit {0}
  IsRefused not_understood = Unit {0}
  IsRefused _ = ⊥

  no_match-IsRefused : (cmds : List ℕ) → IsRefused (no_match is_player cmds)
  unfolding no_match
  no_match-IsRefused [] = tt
  no_match-IsRefused (c ∷ cmds) = elim (Bool-cases is_player) [
    | inl player ↦ rw player tt
    | inr other ↦ rw other tt
  ]

  try_formats-IsRefused :
      (words : List Text) (best : Option ℕ × List ℕ) (formats : List Format)
      → All (Passed words) formats
      → IsRefused (try_formats permitted is_player words best formats)
  unfolding try_formats
  try_formats-IsRefused words best [] all = no_match-IsRefused best.1
  try_formats-IsRefused words best (g ∷ formats) all = elim (Bool-cases (permitted g.command)) [
    | inr hidden ↦ rw (hidden, try_formats) (try_formats-IsRefused words best formats all.1)
    | inl shown ↦ elim (Outcome-cases (trymatch g.nodes words no_args).0) [
      | inr (k, e) ↦
          rw (shown, e, try_formats)
            (try_formats-IsRefused words (note_score g.command k best) formats all.1)
      | inl m ↦ absurd (elim all.0 [
        | inl hidden ↦ cc
        | inr fails ↦ fails ((trymatch-Derives g.nodes words no_args).0 m)
      ])
    ]
  ]

  -- Where there are words, but no format that the caller may use and that they match, a call runs
  -- nothing: it shows the usage of some commands or says that it does not understand.
  pub call-IsRefused :
      (comm w : Text) (ws : List Text) (formats : List Format)
      → split_words comm ≡ some (w ∷ ws)
      → All (Passed (w ∷ ws)) formats
      → (r : Called) × (call permitted is_player formats comm ≡ some r) × IsRefused r
  unfolding call call_words
  call-IsRefused comm w ws formats e all = (
    try_formats permitted is_player (w ∷ ws) (none, []) formats,
    rw e,
    try_formats-IsRefused (w ∷ ws) (none, []) formats all,
  )
