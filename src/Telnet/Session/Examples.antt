-- ===== src/Telnet/Session/Examples.antt =====
-- A client that types over two events, asks for options, and is prompted.
use sourcemud.Base.{false, ◌≡◌, Option, some, List, [], ◌∷◌}
use sourcemud.Base.Text.{codes}
use sourcemud.Telnet.Handler.{Handler}
use sourcemud.Telnet.Chunk.Safety.{Fits}
use sourcemud.Telnet.Input.Safety.{KeepsWaiting}
use sourcemud.Telnet.Input.Examples.{answer, answer-Behaves, client, client-IsWaiting}
use sourcemud.Telnet.Session.{ClientEvent, data_in, do_in, dont_in, flush, sock_flush, run_events}
use sourcemud.Telnet.Session.Safety.{Prompts, sock_flush-IsPrompted, run_events-KeepsWaiting}

abbrev ask : Handler → Option Handler
ask = answer (codes "")

ask-Prompts : Prompts ask
ask-Prompts h s = answer-Behaves (codes "") h s

abbrev events : List ClientEvent
events =
    do_in 1
    ∷ do_in 93
    ∷ data_in (codes "ok")
    ∷ flush
    ∷ data_in (codes " then\n!color off\n")
    ∷ dont_in 1
    ∷ flush
    ∷ []

run_events-KeepsWaiting_example : KeepsWaiting (run_events (codes "0.1") ask answer events client)
run_events-KeepsWaiting_example =
    run_events-KeepsWaiting (codes "0.1") ask answer ask-Prompts answer-Behaves events client
      client-IsWaiting

sock_flush-IsPrompted_example :
    (h' : Handler) × (sock_flush ask client.handler ≡ some h')
    × Fits 31 h'
    × (h'.io_flags.need_prompt ≡ false)
sock_flush-IsPrompted_example =
    sock_flush-IsPrompted ask ask-Prompts client.handler client-IsWaiting.0
