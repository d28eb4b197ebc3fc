-- ===== src/Telnet/Input/Lines.antt =====
-- What a newline does with the line before it.
use mathlib.Core.List.{append_assoc, append-nil}
use sourcemud.Base.{
  ℕ, suc, ◌+◌, ◌<◌, ◌≡◌, ◌≢◌, refl, ap, ◌∙◌, true, false, ◌&&◌, Option, none, some, [], ◌∷◌, ◌++◌,
  arith,
}
use sourcemud.Base.Lists.{length, drop, All, All-append, length-append}
use sourcemud.Base.Options.{◌>>=◌}
use sourcemud.Base.Tests.{ltb, leb, ◌==◌, if◌then◌else◌}
use sourcemud.Base.Text.{Text, codes}
use sourcemud.Strings.Chars.{is_print}
use sourcemud.Strings.Split.{Lacks}
use sourcemud.Telnet.Handler.{Handler, call, telnet_printf}
use sourcemud.Telnet.Input.{
  Client, set_flags, first_line, process_command, process_line, process_input, scan_lines, end_line,
  make_room, store_char, data_byte, data_event, count_line,
}

first_line-Lacks :
    (p rest : Text) → Lacks b'\n' p → first_line (p ++ (b'\n' ∷ rest)) ≡ some (p, rest)
first_line-Lacks [] rest h = refl
first_line-Lacks (c ∷ p) rest h = ground (arith, h.0, first_line-Lacks p rest h.1)

drop-append : (p rest : Text) (c : ℕ) → drop (suc (length p)) (p ++ (c ∷ rest)) ≡ rest
drop-append [] rest c = refl
drop-append (x ∷ p) rest c = drop-append p rest c

-- The handler in which the mode gets the line.
abbrev pub at_newline : Handler → Handler
at_newline h =
    set_flags (λ f. record f { need_newline = false; need_prompt = true })
      (if h.io_flags.do_echo then call (telnet_printf (codes "\n")) h else h)

make_room_idle :
    (h : Handler) (p : Text)
    → length p < 254
    → make_room (record { handler = h; input = p }) ≡ some (record { handler = h; input = p })
unfolding make_room
make_room_idle h p room = let short : leb 256 (length p + 2) ≡ false = ground arith in rw short refl

pub store_char_newline :
    (h : Handler) (p : Text)
    → store_char b'\n' (record { handler = h; input = p })
      ≡ record { handler = h; input = p ++ (b'\n' ∷ []) }
unfolding store_char
store_char_newline h p = refl

print-Lacks : (text : Text) → All (λ c. is_print c ≡ true) text → Lacks b'\n' text
print-Lacks [] all = tt
print-Lacks (c ∷ cs) all = (unfold is_print in ground (arith, all.0), print-Lacks cs all.1)

module _ (mode_process : Text → Handler → Option Handler) where
  scan_lines_over :
      (fuel i lines : ℕ) (h : Handler)
      → scan_lines mode_process (suc fuel) i lines (record { handler = h; input = [] })
        ≡ some (record { handler = h; input = [] })
  unfolding scan_lines
  scan_lines_over fuel i lines h =
      let over : ltb i 0 ≡ false = ground arith in rw (over, scan_lines) refl

  scan_lines_first :
      (fuel : ℕ) (c : ℕ) (cs : Text) (h : Handler)
      → scan_lines mode_process (suc fuel) 0 0 (record { handler = h; input = c ∷ cs })
        ≡ process_input mode_process (record { handler = h; input = c ∷ cs })
          >>= scan_lines mode_process fuel 1 (count_line (some c) 0)
  unfolding scan_lines
  scan_lines_first fuel c cs h =
      let more : ltb 0 (suc (length cs)) ≡ true = ground arith in rw (more, scan_lines) refl

  scan_lines_rest :
      (o : Option Handler) (fuel lines : ℕ)
      → (o >>= (λ h. some (record { handler = h; input = [] })))
          >>= scan_lines mode_process (suc fuel) 1 lines
        ≡ o >>= (λ h. some (record { handler = h; input = [] }))
  scan_lines_rest none fuel lines = refl
  scan_lines_rest (some h) fuel lines = scan_lines_over fuel 1 lines h

  process_input_line :
      (p : Text) (h : Handler)
      → Lacks b'\n' p
      → process_input mode_process (record { handler = h; input = p ++ (b'\n' ∷ []) })
        ≡ process_command mode_process (p ++ (0 ∷ 0 ∷ [])) h
          >>= (λ h'. some (record { handler = h'; input = [] }))
  unfolding process_input process_line
  process_input_line p h lacks = rw (first_line-Lacks p [] lacks, drop-append p [] b'\n') refl

  scan_lines_line :
      (p : Text) (h : Handler)
      → Lacks b'\n' p
      → scan_lines mode_process
          (suc (length (p ++ (b'\n' ∷ []))))
          0
          0
          (record { handler = h; input = p ++ (b'\n' ∷ []) })
        ≡ process_command mode_process (p ++ (0 ∷ 0 ∷ [])) h
          >>= (λ h'. some (record { handler = h'; input = [] }))
  scan_lines_line [] h lacks =
      scan_lines_first 1 b'\n' [] h
      ∙ ap (λ o. o >>= scan_lines mode_process 1 1 (count_line (some b'\n') 0))
          (process_input_line [] h lacks)
      ∙ scan_lines_rest (process_command mode_process (0 ∷ 0 ∷ []) h) 0 (count_line (some b'\n') 0)
  scan_lines_line (c ∷ cs) h lacks =
      let n = length (cs ++ (b'\n' ∷ [])) in
      scan_lines_first (suc n) c (cs ++ (b'\n' ∷ [])) h
      ∙ ap (λ o. o >>= scan_lines mode_process (suc n) 1 (count_line (some c) 0))
          (process_input_line (c ∷ cs) h lacks)
      ∙ scan_lines_rest (process_command mode_process ((c ∷ cs) ++ (0 ∷ 0 ∷ [])) h) n
          (count_line (some c) 0)

  -- The line is given on once, and no input is left.
  pub end_line_run :
      (p : Text) (h : Handler)
      → Lacks b'\n' p
      → end_line mode_process (record { handler = h; input = p ++ (b'\n' ∷ []) })
        ≡ process_command mode_process (p ++ (0 ∷ 0 ∷ [])) (at_newline h)
          >>= (λ h'. some (record { handler = h'; input = [] }))
  unfolding end_line
  end_line_run p h lacks = scan_lines_line p (at_newline h) lacks

  data_byte_print :
      (c : ℕ) (p : Text) (h : Handler)
      → is_print c ≡ true
      → length p < 254
      → h.io_flags.do_echo ≡ false
      → data_byte mode_process c (record { handler = h; input = p })
        ≡ some (record { handler = h; input = p ++ (c ∷ []) })
  unfolding data_byte
  data_byte_print c p h printed room quiet =
      let stays : (c == b'\n') ≡ false = unfold is_print in ground (arith, printed) in
      let off : (h.io_flags.want_echo && h.io_flags.do_echo) ≡ false = ground (arith, quiet) in
      rw (stays, printed, make_room_idle h p room) (rw off refl)

  data_byte_newline :
      (p : Text) (h : Handler)
      → length p < 254
      → data_byte mode_process b'\n' (record { handler = h; input = p })
        ≡ end_line mode_process (record { handler = h; input = p ++ (b'\n' ∷ []) })
  unfolding data_byte
  data_byte_newline p h room =
      rw (make_room_idle h p room) (ap (end_line mode_process) (store_char_newline h p))

  data_event_print :
      (text rest p : Text) (h : Handler)
      → All (λ c. is_print c ≡ true) text
      → length p + length text < 255
      → h.io_flags.do_echo ≡ false
      → data_event mode_process (text ++ rest) (record { handler = h; input = p })
        ≡ data_event mode_process rest (record { handler = h; input = p ++ text })
  unfolding data_event
  data_event_print [] rest p h all room quiet = rw (append-nil p) refl
  data_event_print (c ∷ cs) rest p h all room quiet =
      let next =
        data_event_print cs rest (p ++ (c ∷ [])) h all.1 (omega (arith, length-append p (c ∷ [])))
          quiet in
      rw (data_byte_print c p h all.0 (omega arith) quiet) (
        next
        ∙ ap (λ t. data_event mode_process rest (record { handler = h; input = t }))
            (append_assoc p (c ∷ []) cs))

  data_event_over : (o : Option Client) → o >>= data_event mode_process [] ≡ o
  unfolding data_event
  data_event_over none = refl
  data_event_over (some k) = refl

  -- Where the client does not echo, printable bytes and a newline that fit the input buffer with what
  -- is in it, which has no newline, give the whole line to the mode or to the telnet commands exactly
  -- once, and leave no input.
  pub data_event-process_command :
      (text p : Text) (h : Handler)
      → Lacks b'\n' p
      → All (λ c. is_print c ≡ true) text
      → length p + length text < 254
      → h.io_flags.do_echo ≡ false
      → data_event mode_process (text ++ (b'\n' ∷ [])) (record { handler = h; input = p })
        ≡ process_command mode_process (p ++ text ++ (0 ∷ 0 ∷ [])) (at_newline h)
          >>= (λ h'. some (record { handler = h'; input = [] }))
  unfolding data_event
  data_event-process_command text p h lacks all room quiet =
      data_event_print text (b'\n' ∷ []) p h all (omega arith) quiet
      ∙ rw (data_byte_newline (p ++ text) h (omega (arith, length-append p text))) (
          ap (λ o. o >>= data_event mode_process [])
            (end_line_run (p ++ text) h
              (All-append (λ c. c ≢ b'\n') p text lacks (print-Lacks text all)))
          ∙ data_event_over _)
