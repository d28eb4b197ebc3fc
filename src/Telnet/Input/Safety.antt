-- ===== src/Telnet/Input/Safety.antt =====
-- What a client sends does not leave the input buffer, and each of its events has a result.
use sourcemud.Base.{
  ℕ, zero, suc, ◌+◌, ◌-◌, ◌<◌, ◌≡◌, ◌≢◌, refl, inl, inr, Bool, true, false, not, ◌&&◌, ◌||◌, Option,
  none, some, List, [], ◌∷◌, ◌++◌, arith,
}
use sourcemud.Base.Int.{pos}
use sourcemud.Base.Lists.{length, take, All, All-append, get_elem?, length-append, length-take}
use sourcemud.Base.Tests.{leb, ◌==◌, if◌then◌else◌, Bool-cases}
use sourcemud.Base.Text.{Text, codes, text_eq}
use sourcemud.Strings.Chars.{is_print, c_str}
use sourcemud.Strings.Numbers.{tostr, tostr-Lacks}
use sourcemud.Strings.Split.{Lacks}
use sourcemud.Telnet.Handler.{Handler, call, telnet_printf, telnet_negotiate}
use sourcemud.Telnet.Chunk.Safety.{Fits, Keeps, Keeps-then, Keeps-if}
use sourcemud.Telnet.Stream.{stream_put}
use sourcemud.Telnet.Stream.Safety.{stream_put-Fits}
use sourcemud.Telnet.Input.{
  Client, admin_color, normal_color, help_lines, telnet_wont, telopt_echo, put_all, set_flags,
  show_help, set_color_mode, set_echo_mode, set_screen, telnet_args, process_telnet_command,
  begins_with_bang, process_command, end_line, make_room, store_char, erase, backspace, data_byte,
  data_event,
}
use sourcemud.Telnet.Input.Lines.{at_newline, end_line_run, store_char_newline}

NoTab : Text → Type 0
NoTab text = All (λ c. c ≢ b'\t') text

put_all-Keeps :
    (texts : List Text) (h : Handler) → All NoTab texts → Fits 31 h → Keeps 31 (put_all texts h)
unfolding put_all NoTab
put_all-Keeps [] h all s = (h, refl, s)
put_all-Keeps (text ∷ texts) h all s =
    Keeps-then 31 31 (stream_put text h) _ (stream_put-Fits text h all.0 s)
      (λ k fits. put_all-Keeps texts k all.1 fits)

say-Keeps : (text : Text) (h : Handler) → NoTab text → Fits 31 h → Keeps 31 (put_all (text ∷ []) h)
say-Keeps text h clean s = put_all-Keeps (text ∷ []) h (clean, tt) s

show_help-Keeps : (h : Handler) → Fits 31 h → Keeps 31 (show_help h)
unfolding show_help
show_help-Keeps h s = put_all-Keeps help_lines h (unfold NoTab in omega arith) s

set_color_mode-Keeps : (arg : Text) (h : Handler) → Fits 31 h → Keeps 31 (set_color_mode arg h)
unfolding set_color_mode
set_color_mode-Keeps arg h s =
    Keeps-if 31 (text_eq arg (codes "on")) _ _
      (λ on.
        say-Keeps (admin_color ++ codes "ANSI Color Enabled" ++ normal_color ++ codes "\n") _
          (unfold NoTab in omega arith) s)
      (λ not_on.
        Keeps-if 31 (text_eq arg (codes "off")) _ _
          (λ off. say-Keeps (codes "ANSI Color Disabled\n") _ (unfold NoTab in omega arith) s)
          (λ not_off. show_help-Keeps h s))

off_Fits :
    (want : Bool) (h : Handler)
    → Fits 31 h
    → Fits 31 (
        if want
        then call
            (telnet_negotiate telnet_wont telopt_echo)
            (set_flags (λ f. record f { force_echo = false }) h)
        else set_flags (λ f. record f { force_echo = false }) h)
off_Fits true h s = s
off_Fits false h s = s

set_echo_mode-Keeps : (arg : Text) (h : Handler) → Fits 31 h → Keeps 31 (set_echo_mode arg h)
unfolding set_echo_mode
set_echo_mode-Keeps arg h s =
    Keeps-if 31 (text_eq arg (codes "on")) _ _
      (λ on.
        say-Keeps (admin_color ++ codes "Echo Enabled" ++ normal_color ++ codes "\n") _
          (unfold NoTab in omega arith) s)
      (λ not_on.
        Keeps-if 31 (text_eq arg (codes "off")) _ _
          (λ off.
            say-Keeps (admin_color ++ codes "Echo Disabled" ++ normal_color ++ codes "\n") _
              (unfold NoTab in omega arith) (off_Fits h.io_flags.want_echo h s))
          (λ not_off. show_help-Keeps h s))

set_screen-Keeps : (size : Option (ℕ × ℕ)) (h : Handler) → Fits 31 h → Keeps 31 (set_screen size h)
unfolding set_screen
set_screen-Keeps none h s = show_help-Keeps h s
set_screen-Keeps (some (w, n)) h s =
    put_all-Keeps
      ((admin_color ++ codes "Screen: ")
        ∷ tostr (pos w)
        ∷ codes "x"
        ∷ tostr (pos n)
        ∷ (normal_color ++ codes "\n")
        ∷ [])
      _
      (unfold NoTab in
        (
          omega arith,
          (
            tostr-Lacks b'\t' (pos w) (omega arith),
            (omega arith, (tostr-Lacks b'\t' (pos n) (omega arith), (omega arith, tt))),
          ),
        ))
      s

telnet_args-Keeps : (args : List Text) (h : Handler) → Fits 31 h → Keeps 31 (telnet_args args h)
unfolding telnet_args
telnet_args-Keeps [] h s = show_help-Keeps h s
telnet_args-Keeps (a ∷ []) h s = show_help-Keeps h s
telnet_args-Keeps (a ∷ b ∷ []) h s =
    Keeps-if 31 (text_eq a (codes "color")) _ _ (λ color. set_color_mode-Keeps b h s)
      (λ other.
        Keeps-if 31 (text_eq a (codes "echo")) _ _ (λ echo. set_echo_mode-Keeps b h s)
          (λ neither. show_help-Keeps h s))
telnet_args-Keeps (a ∷ b ∷ c ∷ []) h s =
    Keeps-if 31 (text_eq a (codes "screen")) _ _ (λ screen. set_screen-Keeps _ h s)
      (λ other. show_help-Keeps h s)
telnet_args-Keeps (a ∷ b ∷ c ∷ d ∷ ds) h s = show_help-Keeps h s

-- No newline is left in the input, and there is room for one more byte and a zero byte.
abbrev pub IsWaiting : Client → Type 0
IsWaiting k = Fits 31 k.handler × (length k.input < 255) × Lacks b'\n' k.input

abbrev pub KeepsWaiting : Option Client → Type 0
KeepsWaiting o = (k : Client) × (o ≡ some k) × IsWaiting k

stored-Fits :
    (echo : Bool) (text : Text) (h : Handler)
    → Fits 31 h
    → Fits 31 (if echo then call (telnet_printf text) h else h)
stored-Fits true text h s = s
stored-Fits false text h s = s

at_newline-Fits : (h : Handler) → Fits 31 h → Fits 31 (at_newline h)
at_newline-Fits h s = stored-Fits h.io_flags.do_echo (codes "\n") h s

make_room-Keeps :
    (k : Client)
    → IsWaiting k
    → (k' : Client) × (make_room k ≡ some k') × IsWaiting k' × (length k'.input < 254)
unfolding make_room
make_room-Keeps k (fits, small, lacks) = elim (Bool-cases (leb 256 (length k.input + 2))) [
  | inl full ↦
      let (h, e, s) =
        stream_put-Fits
          (admin_color ++ codes "\nInput has exceeded maximum size.\n" ++ normal_color) k.handler
          (omega arith) fits in
      (record { handler = h; input = [] }, rw (full, e) refl, (s, omega arith, tt), omega arith)
  | inr room ↦ (k, rw room refl, (fits, small, lacks), ground arith)
]

take-Lacks : (b n : ℕ) (p : Text) → Lacks b p → Lacks b (take n p)
take-Lacks b zero p h = tt
take-Lacks b (suc n) [] h = tt
take-Lacks b (suc n) (c ∷ p) h = (h.0, take-Lacks b n p h.1)

erase-IsWaiting : (o : Option ℕ) (k : Client) → IsWaiting k → IsWaiting (erase o k)
unfolding erase
erase-IsWaiting none k w = w
erase-IsWaiting (some c) k (fits, small, lacks) = elim (Bool-cases (c == b'\n')) [
  | inl newline ↦ rw newline (fits, small, lacks)
  | inr other ↦
      let less = length-take (length k.input - 1) k.input in
      rw other (
        stored-Fits k.handler.io_flags.do_echo _ k.handler fits,
        omega (arith, less),
        take-Lacks b'\n' (length k.input - 1) k.input lacks,
      )
]

backspace-IsWaiting : (k : Client) → IsWaiting k → IsWaiting (backspace k)
unfolding backspace
backspace-IsWaiting k w = erase-IsWaiting (get_elem? k.input (length k.input - 1)) k w

store_char-IsWaiting :
    (c : ℕ) (k : Client)
    → c ≢ b'\n'
    → IsWaiting k
    → length k.input < 254
    → IsWaiting (store_char c k)
unfolding store_char
store_char-IsWaiting c k other (fits, small, lacks) room =
    let f = k.handler.io_flags in
    (
      stored-Fits (not (c == b'\n') && (f.want_echo && f.do_echo)) (c ∷ []) k.handler fits,
      omega (arith, length-append k.input (c ∷ [])),
      All-append (λ x. x ≢ b'\n') k.input (c ∷ []) lacks (other, tt),
    )

-- What is asked of `mode->process`: given a handler whose buffers have room, it returns one.
abbrev pub Behaves : (Text → Handler → Option Handler) → Type 0
Behaves mode_process = (line : Text) (h : Handler) → Fits 31 h → Keeps 31 (mode_process line h)

module _ (mode_process : Text → Handler → Option Handler) (behaves : Behaves mode_process) where
  process_command-Keeps :
      (cbuffer : Text) (h : Handler) → Fits 31 h → Keeps 31 (process_command mode_process cbuffer h)
  unfolding process_command process_telnet_command
  process_command-Keeps cbuffer h s =
      Keeps-if 31 (not (begins_with_bang cbuffer) && h.has_mode) _ _
        (λ general. behaves (c_str cbuffer) _ s) (λ layer. telnet_args-Keeps _ _ s)

  end_line-KeepsWaiting :
      (p : Text) (h : Handler)
      → Fits 31 h
      → Lacks b'\n' p
      → KeepsWaiting (end_line mode_process (record { handler = h; input = p ++ (b'\n' ∷ []) }))
  end_line-KeepsWaiting p h s lacks =
      let (h', e, s') =
        process_command-Keeps (p ++ (0 ∷ 0 ∷ [])) (at_newline h) (at_newline-Fits h s) in
      rw (end_line_run mode_process p h lacks, e)
        (record { handler = h'; input = [] }, refl, (s', omega arith, tt))

  end_stored-KeepsWaiting :
      (c : ℕ) (k : Client)
      → IsWaiting k
      → length k.input < 254
      → KeepsWaiting
          (if c == b'\n' then end_line mode_process (store_char c k) else some (store_char c k))
  end_stored-KeepsWaiting c k (fits, small, lacks) room = elim (Bool-cases (c == b'\n')) [
    | inl newline ↦
        let same : c ≡ b'\n' = ground arith in
        rw (newline, same)
          (rw (store_char_newline k.handler k.input)
            (end_line-KeepsWaiting k.input k.handler fits lacks))
    | inr other ↦
        rw other
          (store_char c k, refl, store_char-IsWaiting c k (ground arith) (fits, small, lacks) room)
  ]

  data_byte-KeepsWaiting :
      (c : ℕ) (k : Client) → IsWaiting k → KeepsWaiting (data_byte mode_process c k)
  unfolding data_byte
  data_byte-KeepsWaiting c k w = elim (Bool-cases (c == b'\n' || is_print c)) [
    | inl text ↦
        let (k', e, w', room) = make_room-Keeps k w in
        rw (text, e) (end_stored-KeepsWaiting c k' w' room)
    | inr control ↦ elim (Bool-cases (c == 127)) [
      | inl rub ↦ rw (control, rub) (backspace k, refl, backspace-IsWaiting k w)
      | inr other ↦ rw (control, other) (k, refl, w)
    ]
  ]

  -- Whatever bytes a client sends, and whatever a mode does with its lines that keeps room in the
  -- buffers of the handler, the bytes are taken without a fault, so none is written behind the input
  -- buffer; afterwards the input again has room and no newline is left in it, and the buffers of the
  -- handler have room.
  pub data_event-KeepsWaiting :
      (bytes : Text) (k : Client) → IsWaiting k → KeepsWaiting (data_event mode_process bytes k)
  unfolding data_event
  data_event-KeepsWaiting [] k w = (k, refl, w)
  data_event-KeepsWaiting (c ∷ cs) k w =
      let (k', e, w') = data_byte-KeepsWaiting c k w in rw e (data_event-KeepsWaiting cs k' w')
