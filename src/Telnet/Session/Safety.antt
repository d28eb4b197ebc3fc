-- ===== src/Telnet/Session/Safety.antt =====
-- No event of a client is a fault, in whatever order they come.
use sourcemud.Base.{ℕ, Bool, true, false, Option, some, List, [], ◌∷◌, ◌≡◌, refl, inl, inr, arith}
use sourcemud.Base.Tests.{◌==◌, if◌then◌else◌, Bool-cases}
use sourcemud.Base.Text.{Text, codes}
use sourcemud.Telnet.Handler.{Handler}
use sourcemud.Telnet.Chunk.Safety.{Fits, Keeps, Keeps-if, end_chunk-Keeps}
use sourcemud.Telnet.Stream.{stream_put}
use sourcemud.Telnet.Stream.Safety.{stream_put-Fits}
use sourcemud.Telnet.Input.{Client, telopt_echo}
use sourcemud.Telnet.Input.Safety.{Behaves, IsWaiting, KeepsWaiting, data_event-KeepsWaiting}
use sourcemud.Telnet.Session.{
  telopt_eor, telopt_compress2, telopt_zmp, is_empty, dont_option, clear_colors, do_option,
  end_prompt, prompt_now, write_prompt, sock_flush, ClientEvent, data_in, do_in, dont_in, flush,
  step_event, run_events,
}

clear_colors-Fits : (h : Handler) → Fits 31 h → Fits 31 (clear_colors h)
unfolding clear_colors
clear_colors-Fits h (chunk, margin, colors, size, set, esc) =
    elim (Bool-cases (is_empty h.colors)) [
      | inl none_pushed ↦ rw none_pushed (chunk, margin, colors, size, set, esc)
      | inr pushed ↦ elim (Bool-cases h.io_flags.use_ansi) [
        | inl ansi ↦ rw (pushed, ansi) (chunk, margin, tt, size, set, esc)
        | inr plain ↦ rw (pushed, plain) (chunk, margin, tt, size, set, esc)
      ]
    ]

dont_option-Fits : (telopt : ℕ) (h : Handler) → Fits 31 h → Fits 31 (dont_option telopt h)
unfolding dont_option
dont_option-Fits telopt h s = elim (Bool-cases (telopt == telopt_echo)) [
  | inl echo ↦ rw echo s
  | inr other ↦ elim (Bool-cases (telopt == telopt_eor)) [
    | inl eor ↦ rw (other, eor) s
    | inr neither ↦ rw (other, neither) s
  ]
]

-- What is asked of `mode->prompt`.
abbrev pub Prompts : (Handler → Option Handler) → Type 0
Prompts mode_prompt = (h : Handler) → Fits 31 h → Keeps 31 (mode_prompt h)

do_option-Fits :
    (version : Text) (telopt : ℕ) (h : Handler) → Fits 31 h → Fits 31 (do_option version telopt h)
unfolding do_option
do_option-Fits version telopt h s = elim (Bool-cases (telopt == telopt_echo)) [
  | inl echo ↦ rw echo s
  | inr no_echo ↦ elim (Bool-cases (telopt == telopt_eor)) [
    | inl eor ↦ rw (no_echo, eor) s
    | inr no_eor ↦ elim (Bool-cases (telopt == telopt_compress2)) [
      | inl compress ↦ rw (no_echo, no_eor, compress) s
      | inr other ↦ elim (Bool-cases (telopt == telopt_zmp)) [
        | inl zmp ↦ rw (no_echo, no_eor, other, zmp) s
        | inr none_known ↦ rw (no_echo, no_eor, other, none_known) s
      ]
    ]
  ]
]

end_prompt-Fits : (h : Handler) → Fits 31 h → Fits 31 (end_prompt h)
unfolding end_prompt
end_prompt-Fits h s = elim (Bool-cases h.io_flags.do_eor) [
  | inl eor ↦ rw eor s
  | inr plain ↦ rw plain s
]

end_prompt_done : (h : Handler) → (end_prompt h).io_flags.need_prompt ≡ false
unfolding end_prompt
end_prompt_done h = refl

-- No prompt is due.
abbrev IsPrompted : Option Handler → Type 0
IsPrompted o = (h : Handler) × (o ≡ some h) × Fits 31 h × (h.io_flags.need_prompt ≡ false)

IsPrompted-if :
    (b : Bool) (o p : Option Handler)
    → (b ≡ true → IsPrompted o)
    → (b ≡ false → IsPrompted p)
    → IsPrompted (if b then o else p)
IsPrompted-if true o p due over = due refl
IsPrompted-if false o p due over = over refl

module _ (mode_prompt : Handler → Option Handler) (prompts : Prompts mode_prompt) where
  prompt_now-IsPrompted : (h : Handler) → Fits 31 h → IsPrompted (prompt_now mode_prompt h)
  unfolding prompt_now
  prompt_now-IsPrompted h s =
      let (h', e, s') =
        Keeps-if 31 h.has_mode (mode_prompt h) (stream_put (codes ">") h) (λ mode. prompts h s)
          (λ no_mode. stream_put-Fits (codes ">") h (omega arith) s) in
      let (h'', e', s'') = end_chunk-Keeps 31 31 h' s' in
      rw e (rw e' (end_prompt h'', refl, end_prompt-Fits h'' s'', end_prompt_done h''))

  write_prompt-IsPrompted : (h : Handler) → Fits 31 h → IsPrompted (write_prompt mode_prompt h)
  unfolding write_prompt
  write_prompt-IsPrompted h s =
      IsPrompted-if h.io_flags.need_prompt _ _ (λ due. prompt_now-IsPrompted h s)
        (λ not_due. (h, refl, s, not_due))

  -- Behind the check of the timeout, flushing a handler whose buffers have room has a result, which is
  -- again such a handler, and no prompt is due then, as long as the mode writes its prompt so.
  pub sock_flush-IsPrompted :
      (h : Handler)
      → Fits 31 h
      → (h' : Handler) × (sock_flush mode_prompt h ≡ some h')
        × Fits 31 h'
        × (h'.io_flags.need_prompt ≡ false)
  unfolding sock_flush
  sock_flush-IsPrompted h s =
      let (h', e, s') = end_chunk-Keeps 31 31 h s in
      rw e (write_prompt-IsPrompted (clear_colors h') (clear_colors-Fits h' s'))

module _ (version : Text) (mode_prompt : Handler → Option Handler)
    (mode_process : Text → Handler → Option Handler) (prompts : Prompts mode_prompt)
    (behaves : Behaves mode_process) where
  step_event-KeepsWaiting :
      (e : ClientEvent) (k : Client)
      → IsWaiting k
      → KeepsWaiting (step_event version mode_prompt mode_process e k)
  unfolding step_event
  step_event-KeepsWaiting (data_in bytes) k w =
      data_event-KeepsWaiting mode_process behaves bytes k w
  step_event-KeepsWaiting (do_in telopt) k (s, small, lacks) = (
    record k { handler = do_option version telopt k.handler },
    refl,
    (do_option-Fits version telopt k.handler s, small, lacks),
  )
  step_event-KeepsWaiting (dont_in telopt) k (s, small, lacks) = (
    record k { handler = dont_option telopt k.handler },
    refl,
    (dont_option-Fits telopt k.handler s, small, lacks),
  )
  step_event-KeepsWaiting flush k (s, small, lacks) =
      let (h, e, s', due) = sock_flush-IsPrompted mode_prompt prompts k.handler s in
      rw e (record k { handler = h }, refl, (s', small, lacks))

  -- Whatever bytes and requests for options a client sends, in whatever order with flushes, and whatever a
  -- mode does with lines and prompts that keeps room in the buffers of the handler, no event is a fault,
  -- so nothing is written behind a buffer; afterwards the input has room, no newline is left in
  -- it, and the buffers of the handler have room.
  pub run_events-KeepsWaiting :
      (es : List ClientEvent) (k : Client)
      → IsWaiting k
      → KeepsWaiting (run_events version mode_prompt mode_process es k)
  unfolding run_events
  run_events-KeepsWaiting [] k w = (k, refl, w)
  run_events-KeepsWaiting (e ∷ es) k w =
      let (k', same, w') = step_event-KeepsWaiting e k w in
      rw same (run_events-KeepsWaiting es k' w')
