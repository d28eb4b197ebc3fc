-- ===== src/Telnet/Input/Examples.antt =====
-- Runs of the input, with a mode that answers each line.
use sourcemud.Base.{true, ◌≡◌, refl, Option, some, [], ◌∷◌, ◌++◌, arith}
use sourcemud.Base.Options.{◌>>=◌}
use sourcemud.Base.Text.{Text, codes}
use sourcemud.Strings.Chars.{is_print}
use sourcemud.Telnet.Handler.{Handler, new_handler}
use sourcemud.Telnet.Chunk.Safety.{Fits}
use sourcemud.Telnet.Stream.{stream_put}
use sourcemud.Telnet.Stream.Safety.{stream_put-Fits}
use sourcemud.Telnet.Input.{Client, process_command, data_event}
use sourcemud.Telnet.Input.Lines.{at_newline, data_event-process_command}
use sourcemud.Telnet.Input.Safety.{Behaves, IsWaiting}

abbrev pub answer : Text → Handler → Option Handler
answer line h = stream_put (codes "ok\n") h

pub answer-Behaves : Behaves answer
answer-Behaves line h s = stream_put-Fits (codes "ok\n") h (omega arith) s

new_handler-Fits : Fits 31 new_handler
new_handler-Fits = (
  omega arith,
  omega arith,
  tt,
  refl,
  (
    tt,
    (tt, (tt, (tt, (tt, (tt, (tt, (tt, (tt, (tt, (tt, (tt, (tt, (tt, (tt, (tt, tt))))))))))))))),
  ),
  omega arith,
)

abbrev pub client : Client
client = record { handler = record new_handler { has_mode = true }; input = codes "lo" }

pub client-IsWaiting : IsWaiting client
client-IsWaiting = (new_handler-Fits, omega arith, (omega arith, (omega arith, tt)))

data_event-process_command_example :
    data_event answer (codes "ok" ++ (b'\n' ∷ [])) client
    ≡ process_command answer (codes "lo" ++ codes "ok" ++ (0 ∷ 0 ∷ [])) (at_newline client.handler)
      >>= (λ h'. some (record { handler = h'; input = [] }))
data_event-process_command_example =
    data_event-process_command answer (codes "ok") (codes "lo") client.handler
      (omega arith, (omega arith, tt)) (unfold is_print in (refl, (refl, tt))) (omega arith) refl
