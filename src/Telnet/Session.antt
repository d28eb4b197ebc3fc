-- ===== src/Telnet/Session.antt =====
-- The events of a telnet client, one after another: `telnetEvent` for its data and for the options that
-- it asks for, and `sockFlush` of src/net/telnet.cc behind its check of the timeout.
pub mod Safety
pub mod Examples
use sourcemud.Base.{
  ℕ, Bool, true, false, not, ◌||◌, ◌&&◌, Option, none, some, List, [], ◌∷◌, ◌≡◌, refl, inl, inr,
  arith,
}
use sourcemud.Base.Lists.{length, All}
use sourcemud.Base.Options.{◌>>=◌}
use sourcemud.Base.Tests.{◌==◌, if◌then◌else◌, Bool-cases}
use sourcemud.Base.Text.{Text, codes}
use sourcemud.Telnet.Handler.{
  Handler, IoFlags, call, telnet_send, telnet_printf, telnet_iac, telnet_begin_compress2, add_zmp,
  ansi_normal,
}
use sourcemud.Telnet.Chunk.{end_chunk}
use sourcemud.Telnet.Chunk.Safety.{Fits, Keeps, Keeps-then, Keeps-if, end_chunk-Keeps}
use sourcemud.Telnet.Stream.{stream_put}
use sourcemud.Telnet.Stream.Safety.{stream_put-Fits}
use sourcemud.Telnet.Input.{Client, set_flags, telopt_echo, data_event}
use sourcemud.Telnet.Input.Safety.{Behaves, IsWaiting, KeepsWaiting, data_event-KeepsWaiting}

abbrev pub telopt_eor : ℕ
telopt_eor = 25

abbrev pub telopt_compress2 : ℕ
telopt_compress2 = 86

abbrev pub telopt_zmp : ℕ
telopt_zmp = 93

-- TELNET_EOR
abbrev pub telnet_eor : ℕ
telnet_eor = 239

-- TELNET_EV_DONT
unfoldable pub dont_option : ℕ → Handler → Handler
dont_option telopt h =
    if telopt == telopt_echo
    then set_flags (λ f. record f { do_echo = f.do_echo && f.force_echo }) h
    else if telopt == telopt_eor
    then set_flags (λ f. record f { do_eor = false }) h
    else h

abbrev is_empty : List ℕ → Bool
is_empty [] = true
is_empty (c ∷ cs) = false

-- Colours are popped before a prompt.
unfoldable pub clear_colors : Handler → Handler
clear_colors h =
    if is_empty h.colors
    then h
    else record (if h.io_flags.use_ansi then call (telnet_send ansi_normal) h else h) {
      colors = [];
    }

-- The version of the package is a parameter.
module _ (version : Text) where
  -- TELNET_EV_DO; `sendZmp` records its arguments as one call.
  unfoldable pub do_option : ℕ → Handler → Handler
  do_option telopt h =
      if telopt == telopt_echo
      then set_flags (λ f. record f { do_echo = f.want_echo || f.do_echo }) h
      else if telopt == telopt_eor
      then set_flags (λ f. record f { do_eor = true }) h
      else if telopt == telopt_compress2
      then call telnet_begin_compress2 h
      else if telopt == telopt_zmp
      then call (add_zmp (codes "zmp.check" ∷ codes "color.define" ∷ [])) (
          call (add_zmp (codes "zmp.check" ∷ codes "net.sourcemud." ∷ [])) (
            call
              (add_zmp (
                codes "zmp.ident"
                ∷ codes "Source MUD"
                ∷ version
                ∷ codes "Powerful C++ MUD server software"
                ∷ []))
              (set_flags (λ f. record f { zmp = true }) h)))
      else h

-- The end of a prompt.
unfoldable pub end_prompt : Handler → Handler
end_prompt h =
    let spaced = call (telnet_printf (codes " ")) h in
    let ended = if h.io_flags.do_eor then call (telnet_iac telnet_eor) spaced else spaced in
    record (set_flags (λ f. record f { need_prompt = false; need_newline = true }) ended) {
      cur_col = 0;
    }

-- `mode->prompt` is a parameter.
module _ (mode_prompt : Handler → Option Handler) where
  unfoldable pub prompt_now : Handler → Option Handler
  unfolding end_prompt
  prompt_now h = (if h.has_mode then mode_prompt h else stream_put (codes ">") h) >>= λ h'.
      end_chunk h' >>= λ h''. some (end_prompt h'')

  unfoldable pub write_prompt : Handler → Option Handler
  unfolding prompt_now
  write_prompt h = if h.io_flags.need_prompt then prompt_now h else some h

  unfoldable pub sock_flush : Handler → Option Handler
  unfolding clear_colors write_prompt
  sock_flush h = end_chunk h >>= λ h'. write_prompt (clear_colors h')

pub data ClientEvent : Type 0 where
  data_in : Text → ClientEvent
  do_in dont_in : ℕ → ClientEvent
  flush : ClientEvent

module _ (version : Text) (mode_prompt : Handler → Option Handler)
    (mode_process : Text → Handler → Option Handler) where
  unfoldable pub step_event : ClientEvent → Client → Option Client
  unfolding do_option sock_flush dont_option
  step_event (data_in bytes) k = data_event mode_process bytes k
  step_event (do_in telopt) k = some (record k { handler = do_option version telopt k.handler })
  step_event (dont_in telopt) k = some (record k { handler = dont_option telopt k.handler })
  step_event flush k = sock_flush mode_prompt k.handler >>= λ h. some (record k { handler = h })

  unfoldable pub run_events : List ClientEvent → Client → Option Client
  unfolding step_event
  run_events [] k = some k
  run_events (e ∷ es) k = step_event e k >>= run_events es
