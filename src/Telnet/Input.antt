-- ===== src/Telnet/Input.antt =====
-- The input of a telnet client: TELNET_EV_DATA of `telnetEvent`, `processInput`, `processCommand` and
-- `processTelnetCommand` of src/net/telnet.cc. `none` is a fault, as in the output.
pub mod Safety
pub mod Lines
pub mod Examples
use sourcemud.Base.{
  ℕ, zero, suc, ◌+◌, ◌-◌, ◌%◌, ◌^◌, Bool, true, false, not, ◌&&◌, ◌||◌, Option, none, some, List,
  [], ◌∷◌, ◌++◌,
}
use sourcemud.Base.Int.{ℤ, pos, negsuc}
use sourcemud.Base.Lists.{length, get_elem?, take, drop}
use sourcemud.Base.Options.{◌>>=◌}
use sourcemud.Base.Tests.{ltb, leb, ◌==◌, if◌then◌else◌}
use sourcemud.Base.Text.{Text, codes, text_eq}
use sourcemud.Strings.Chars.{c_str, is_print}
use sourcemud.Strings.Numbers.{tostr, tolong}
use sourcemud.Strings.Split.{explode}
use sourcemud.Telnet.Handler.{Handler, IoFlags, telnet_printf, telnet_negotiate, call}
use sourcemud.Telnet.Stream.{to_int, stream_put}

abbrev pub input_buffer_size : ℕ
input_buffer_size = 256

abbrev pub buffer_lines : ℕ
buffer_lines = 3

-- CADMIN and CNORMAL
abbrev pub admin_color : Text
admin_color = 0o33 ∷ codes "!C7!"

abbrev pub normal_color : Text
normal_color = 0o33 ∷ codes "!C0!"

-- Texts written to the stream one after the other.
unfoldable pub put_all : List Text → Handler → Option Handler
put_all [] h = some h
put_all (text ∷ texts) h = stream_put text h >>= put_all texts

abbrev pub set_flags : (IoFlags → IoFlags) → Handler → Handler
set_flags f h = record h { io_flags = f h.io_flags }

abbrev pub help_lines : List Text
help_lines =
    codes "Telnet commands:\n"
    ∷ codes " !color <on|off> -- Enable or disable ANSI color.\n"
    ∷ codes " !screen [w] [h] -- Set the column width of your display.\n"
    ∷ codes " !echo <on|off>  -- Enable or disable forced server echoing.\n"
    ∷ codes " !help           -- Show this message.\n"
    ∷ []

unfoldable pub show_help : Handler → Option Handler
unfolding put_all
show_help h = put_all help_lines h

unfoldable pub set_color_mode : Text → Handler → Option Handler
unfolding show_help put_all
set_color_mode arg h =
    if text_eq arg (codes "on")
    then put_all ((admin_color ++ codes "ANSI Color Enabled" ++ normal_color ++ codes "\n") ∷ [])
        (set_flags (λ f. record f { use_ansi = true }) h)
    else if text_eq arg (codes "off")
    then put_all (codes "ANSI Color Disabled\n" ∷ [])
        (set_flags (λ f. record f { use_ansi = false }) h)
    else show_help h

-- The size of the screen, where both numbers are large enough.
unfoldable pub screen_size : ℤ → ℤ → Option (ℕ × ℕ)
screen_size (pos w) (pos n) = if leb 20 w && leb 10 n then some (w, n) else none
screen_size _ _ = none

unfoldable pub set_screen : Option (ℕ × ℕ) → Handler → Option Handler
unfolding show_help put_all
set_screen none h = show_help h
set_screen (some (w, n)) h =
    put_all
      ((admin_color ++ codes "Screen: ")
        ∷ tostr (pos w)
        ∷ codes "x"
        ∷ tostr (pos n)
        ∷ (normal_color ++ codes "\n")
        ∷ [])
      (record h { width = w; height = n })

-- TELNET_WONT and TELNET_TELOPT_ECHO
abbrev pub telnet_wont : ℕ
telnet_wont = 252

abbrev pub telopt_echo : ℕ
telopt_echo = 1

unfoldable pub set_echo_mode : Text → Handler → Option Handler
unfolding show_help put_all
set_echo_mode arg h =
    if text_eq arg (codes "on")
    then put_all ((admin_color ++ codes "Echo Enabled" ++ normal_color ++ codes "\n") ∷ [])
        (set_flags (λ f. record f { force_echo = true; do_echo = f.want_echo || f.do_echo }) h)
    else if text_eq arg (codes "off")
    then (let h' = set_flags (λ f. record f { force_echo = false }) h in
        put_all ((admin_color ++ codes "Echo Disabled" ++ normal_color ++ codes "\n") ∷ [])
          (if h.io_flags.want_echo then call (telnet_negotiate telnet_wont telopt_echo) h' else h'))
    else show_help h

unfoldable pub telnet_args : List Text → Handler → Option Handler
unfolding set_color_mode set_echo_mode set_screen show_help
telnet_args (name ∷ arg ∷ []) h =
    if text_eq name (codes "color")
    then set_color_mode arg h
    else if text_eq name (codes "echo")
    then set_echo_mode arg h
    else show_help h
telnet_args (name ∷ w ∷ n ∷ []) h =
    if text_eq name (codes "screen")
    then set_screen (screen_size (to_int (tolong w)) (to_int (tolong n))) h
    else show_help h
telnet_args _ h = show_help h

unfoldable pub process_telnet_command : Text → Handler → Option Handler
unfolding telnet_args
process_telnet_command cmd h = telnet_args (explode cmd b' ') h

-- The first line of the input and what stands behind its newline.
abbrev pub first_line : Text → Option (Text × Text)
first_line [] = none
first_line (c ∷ cs) =
    if c == b'\n' then some ([], cs) else (first_line cs >>= λ split. some (c ∷ split.0, split.1))

unfoldable pub begins_with_bang : Text → Bool
begins_with_bang [] = false
begins_with_bang (c ∷ cs) = c == b'!'

abbrev pub count_line : Option ℕ → ℕ → ℕ
count_line none lines = lines
count_line (some c) lines = if c == b'\n' then suc lines else lines

-- The handler with its input: the bytes of the buffer that `inpos` counts.
pub record Client : Type 0 where
  pub handler : Handler
  pub input : Text

-- A full buffer is emptied.
unfoldable pub make_room : Client → Option Client
make_room k =
    if leb input_buffer_size (length k.input + 2)
    then (stream_put (admin_color ++ codes "\nInput has exceeded maximum size.\n" ++ normal_color)
          k.handler
        >>= λ h. some (record { handler = h; input = [] }))
    else some k

unfoldable pub store_char : ℕ → Client → Client
store_char c k =
    let f = k.handler.io_flags in
    let h =
      if not (c == b'\n') && (f.want_echo && f.do_echo)
      then call (telnet_printf (c ∷ [])) k.handler
      else k.handler in
    record { handler = h; input = k.input ++ (c ∷ []) }

-- The last byte of the input is erased, if it is not a newline.
unfoldable pub erase : Option ℕ → Client → Client
erase none k = k
erase (some c) k = if c == b'\n' then k else record {
  handler =
      if k.handler.io_flags.do_echo
      then call (telnet_printf (0xFE ∷ b' ' ∷ 0xFE ∷ [])) k.handler
      else k.handler;
  input = take (length k.input - 1) k.input;
}

unfoldable pub backspace : Client → Client
unfolding erase
backspace k = erase (get_elem? k.input (length k.input - 1)) k

-- `mode->process` is a parameter. It has no access to the input.
module _ (mode_process : Text → Handler → Option Handler) where
  -- The bytes run from `cbuffer` on.
  unfoldable pub process_command : Text → Handler → Option Handler
  unfolding process_telnet_command begins_with_bang
  process_command cbuffer h =
      let h' = set_flags (λ f. record f { need_prompt = true }) h in
      if not (begins_with_bang cbuffer) && h.has_mode
      then mode_process (c_str cbuffer) h'
      else process_telnet_command (c_str (drop 1 cbuffer)) h'

  -- A line is cut off with a zero byte, processed, and taken out of the buffer, which has a zero byte
  -- at its end.
  unfoldable pub process_line : Option (Text × Text) → Client → Option Client
  unfolding process_command
  process_line none k = some k
  process_line (some (line, rest)) k =
      process_command (line ++ (0 ∷ (rest ++ (0 ∷ [])))) k.handler >>= λ h.
      some (record { handler = h; input = drop (suc (length line)) k.input })

  unfoldable pub process_input : Client → Option Client
  unfolding process_line
  process_input k = process_line (first_line k.input) k

  -- The loop behind a newline, over the bytes of the buffer: `i` is the next, `lines` the newlines before.
  unfoldable pub scan_lines : ℕ → ℕ → ℕ → Client → Option Client
  unfolding process_input put_all
  scan_lines zero i lines k = none
  scan_lines (suc fuel) i lines k = elim (ltb i (length k.input)) [
    | false ↦ some k
    | true ↦ elim (lines == buffer_lines) [
      | true ↦
          put_all
            ((admin_color ++ codes "You only have ")
              ∷ tostr (pos buffer_lines)
              ∷ (codes " type-ahead lines." ++ normal_color ++ codes "\n")
              ∷ [])
            k.handler
          >>= λ h. some (record { handler = h; input = take i k.input })
      | false ↦ process_input k >>= scan_lines fuel (suc i) (count_line (get_elem? k.input i) lines)
    ]
  ]

  -- What a newline does after it was stored.
  unfoldable pub end_line : Client → Option Client
  unfolding scan_lines
  end_line k =
      let h = k.handler in
      let h' = if h.io_flags.do_echo then call (telnet_printf (codes "\n")) h else h in
      scan_lines (suc (length k.input)) 0 0 (record k {
        handler = set_flags (λ f. record f { need_newline = false; need_prompt = true }) h';
      })

  -- One byte, and all bytes, of an event with data.
  unfoldable pub data_byte : ℕ → Client → Option Client
  unfolding make_room store_char backspace end_line
  data_byte c k =
      if c == b'\n' || is_print c
      then (make_room k >>= λ k'.
          if c == b'\n' then end_line (store_char c k') else some (store_char c k'))
      else some (if c == 127 then backspace k else k)

  unfoldable pub data_event : Text → Client → Option Client
  unfolding data_byte
  data_event [] k = some k
  data_event (c ∷ cs) k = data_byte c k >>= data_event cs
