-- ===== src/Zmp/Examples.antt =====
-- Runs of the ZMP parser.
use sourcemud.Base.{ℕ, ◌≡◌, refl, false, Option, some, List, [], ◌∷◌, arith}
use sourcemud.Base.Lists.{take}
use sourcemud.Base.Text.{Text, codes, text_eq}
use sourcemud.Strings.Chars.{is_print}
use sourcemud.Zmp.RoundTrip.{process_zmp-payload, process_zmp_total}
use sourcemud.Zmp.{ZmpCommand, lookup, serves, payload, process_zmp}

abbrev check_command : ZmpCommand
check_command = record { name = codes "zmp.check"; function = 1; wild = false }

process_zmp-payload_example :
    process_zmp (check_command ∷ []) (payload (codes "zmp.check" ∷ codes "color.define" ∷ []))
    ≡ some (some (1, codes "zmp.check" ∷ take 19 (codes "color.define" ∷ [])))
process_zmp-payload_example =
    process_zmp-payload (check_command ∷ []) check_command b'z' (codes "mp.check")
      (codes "color.define" ∷ []) (unfold is_print in refl) (omega arith)
      (unfold lookup serves text_eq in refl)

process_zmp_total_example :
    (r : Option (ℕ × List Text)) × (process_zmp (check_command ∷ []) (codes "zmp") ≡ some r)
process_zmp_total_example = process_zmp_total (check_command ∷ []) (codes "zmp")
