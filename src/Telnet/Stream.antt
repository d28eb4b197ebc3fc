-- ===== src/Telnet/Stream.antt =====
-- `streamPut` of src/net/telnet.cc, by the states of its output.
pub mod Safety
pub mod Breaks
use sourcemud.Base.{
  ℕ, zero, suc, ◌+◌, ◌-◌, ◌%◌, ◌^◌, Bool, true, false, ◌&&◌, Option, none, some, List, [], ◌∷◌,
  ◌++◌,
}
use sourcemud.Base.Int.{ℤ, pos, negsuc}
use sourcemud.Base.Lists.{length, get_elem?}
use sourcemud.Base.Options.{◌>>=◌}
use sourcemud.Base.Tests.{ltb, leb, ◌==◌, if◌then◌else◌}
use sourcemud.Base.Text.{Text, codes}
use sourcemud.Strings.Chars.{is_alpha}
use sourcemud.Strings.Numbers.{tolong}
use sourcemud.Telnet.Handler.{
  telnet_send, telnet_printf, add_zmp, OutputState, ostate_text, ostate_escape, ostate_ansi,
  ostate_awecode, Handler, max_escape_size, call, ansi_normal, color_values, num_ctypes, get_color,
}
use sourcemud.Telnet.Chunk.{
  replicate, add32, sub32, output_indent, line_break, end_chunk, add_to_chunk, set_indent,
}

-- `int color = atoi(...)`: a `long` cut to 32 bits.
abbrev signed32 : ℕ → ℤ
signed32 w = if ltb w (2 ^ 31) then pos w else negsuc (2 ^ 32 - w - 1)

unfoldable pub to_int : ℤ → ℤ
to_int (pos n) = signed32 (n % 2 ^ 32)
to_int (negsuc n) = signed32 ((2 ^ 64 - (n + 1)) % 2 ^ 32)

-- The case ' '.
put_space : Handler → Option Handler
unfolding line_break output_indent end_chunk
put_space h = end_chunk h >>= λ h'.
    if h'.io_flags.soft_break
    then some h'
    else if ltb 0 h'.width && leb (sub32 h'.width 2) (add32 h'.cur_col 1)
    then some (record (line_break h') { io_flags = record h'.io_flags { soft_break = true } })
    else output_indent h' >>= (λ h''.
      some (record (call (telnet_printf (codes " ")) h'') { cur_col = add32 h''.cur_col 1 }))

-- The case '\n'.
put_newline : Handler → Option Handler
unfolding line_break end_chunk
put_newline h = end_chunk h >>= λ h'.
    let broken = if h'.io_flags.soft_break then h' else line_break h' in
    some (record broken { io_flags = record h'.io_flags { soft_break = false } })

put_escape : Handler → Option Handler
unfolding output_indent end_chunk
put_escape h = end_chunk h >>= output_indent >>= λ h'.
    some (record h' { ostate = ostate_escape; esc_buf = 0o33 ∷ [] })

-- The case '\t'; `%` by zero is a fault.
tab_stop : Handler → Option Handler
tab_stop h =
    if h.cur_col == 0
    then none
    else some (record (call (telnet_send (replicate (4 % h.cur_col) b' ')) h) {
      cur_col = add32 h.cur_col (4 % h.cur_col);
    })

put_tab : Handler → Option Handler
unfolding output_indent end_chunk tab_stop
put_tab h = end_chunk h >>= output_indent >>= tab_stop

put_other : ℕ → Handler → Option Handler
unfolding add_to_chunk
put_other c h =
    add_to_chunk h (c ∷ []) >>= λ h'. some (record h' { chunk_size = add32 h'.chunk_size 1 })

put_text : ℕ → Handler → Option Handler
unfolding put_space put_newline put_escape put_tab put_other
put_text c h =
    if c == b' '
    then put_space h
    else if c == b'\n'
    then put_newline h
    else if c == 0o33
    then put_escape h
    else if c == b'\t'
    then put_tab h
    else put_other c h

-- A byte behind the escape.
put_after_escape : ℕ → Handler → Handler
put_after_escape c h =
    if c == b'!'
    then record h { esc_buf = []; ostate = ostate_awecode }
    else if c == b'['
    then record h { esc_buf = 0o33 ∷ b'[' ∷ []; ostate = ostate_ansi }
    else record h { ostate = ostate_text }

-- `esc_buf[esc_cnt++] = c`
store_escape : ℕ → Handler → Option Handler
store_escape c h =
    if ltb (length h.esc_buf) max_escape_size
    then some (record h { esc_buf = h.esc_buf ++ (c ∷ []) })
    else none

-- `telnet_send` of a colour of the table.
send_color : ℕ → Handler → Option Handler
unfolding color_values
send_color i h = elim (get_elem? color_values i) [
  | none ↦ none
  | some text ↦ some (call (telnet_send text) h)
]

-- The head of the list is the back of the vector.
reset_color : Handler → List ℕ → Option Handler
unfolding send_color
reset_color h [] = some h
reset_color h (last ∷ []) = some (record h { colors = [] })
reset_color h (last ∷ old ∷ rest) = send_color old (record h { colors = old ∷ rest })

push_color : Handler → Option ℕ → Option Handler
unfolding send_color
push_color h none = none
push_color h (some value) = send_color value (record h { colors = value ∷ h.colors })

use_color : Handler → ℤ → Option Handler
unfolding reset_color push_color
use_color h (pos zero) = let h' = call (telnet_send ansi_normal) h in reset_color h' h'.colors
use_color h (pos (suc n)) =
    if ltb (suc n) num_ctypes then push_color h (get_color h (suc n)) else some h
use_color h (negsuc n) = some h

-- `addZmp` of src/net/zmp.cc, which ends the chunk first.
send_zmp : List Text → Handler → Option Handler
unfolding end_chunk
send_zmp argv h =
    if h.io_flags.zmp then end_chunk h >>= (λ h'. some (call (add_zmp argv) h')) else some h

color_command : Text → Handler → Option Handler
unfolding send_zmp use_color
color_command arg h =
    if h.io_flags.zmp_color
    then send_zmp (codes "color.use" ∷ arg ∷ []) h
    else if h.io_flags.use_ansi
    then use_color h (to_int (tolong arg))
    else some h

indent_command : ℤ → Handler → Option Handler
unfolding set_indent
indent_command (pos n) h = set_indent h (n % 2 ^ 32)
indent_command (negsuc n) h = some h

-- `esc_buf[1] == '1'`; the byte behind the last is zero.
abbrev starts_one : Text → Bool
starts_one [] = false
starts_one (c ∷ cs) = c == b'1'

-- A complete command of the text's own codes.
awecode : Text → Handler → Option Handler
unfolding color_command indent_command
awecode [] h = some h
awecode (c ∷ arg) h =
    if c == b'C'
    then color_command arg h
    else if c == b'I'
    then indent_command (tolong arg) h
    else if c == b'A'
    then some (record h { io_flags = record h.io_flags { auto_indent = starts_one arg } })
    else some h

-- The byte that ends the code is written behind it.
end_awecode : Handler → Option Handler
unfolding awecode
end_awecode h =
    if ltb (length h.esc_buf) max_escape_size
    then awecode h.esc_buf h >>= (λ h'. some (record h' { ostate = ostate_text }))
    else none

put_awecode : ℕ → Handler → Option Handler
unfolding store_escape end_awecode
put_awecode c h =
    if c == b'!'
    then end_awecode h
    else if ltb (length h.esc_buf) (max_escape_size - 1)
    then store_escape c h
    else some h

end_ansi : ℕ → Handler → Handler
end_ansi c h =
    let sent = if h.io_flags.use_ansi then call (telnet_send h.esc_buf) h else h in
    if is_alpha c then record sent { ostate = ostate_text } else h

put_ansi : ℕ → Handler → Option Handler
unfolding store_escape end_ansi
put_ansi c h =
    let room = ltb (length h.esc_buf) max_escape_size in
    (if room then store_escape c h else some h) >>= λ h'. some (end_ansi c h')

put_byte : OutputState → ℕ → Handler → Option Handler
unfolding put_text put_after_escape put_awecode put_ansi
put_byte ostate_text c h = put_text c h
put_byte ostate_escape c h = some (put_after_escape c h)
put_byte ostate_awecode c h = put_awecode c h
put_byte ostate_ansi c h = put_ansi c h

put_bytes : Text → Handler → Option Handler
unfolding put_byte
put_bytes [] h = some h
put_bytes (c ∷ cs) h = put_byte h.ostate c h >>= λ h'. put_bytes cs h'

-- The newline behind a prompt.
pub start_output : Handler → Handler
start_output h =
    let broken =
      if h.io_flags.need_newline
      then record (call (telnet_printf (codes "\n")) h) {
        cur_col = 0;
        io_flags = record h.io_flags { soft_break = false };
      }
      else h in
    record broken { io_flags = record broken.io_flags { need_newline = false } }

unfoldable pub stream_put : Text → Handler → Option Handler
unfolding start_output put_bytes
stream_put text h = put_bytes text (start_output h) >>= λ h'.
    some (record h' { io_flags = record h'.io_flags { need_prompt = true } })
