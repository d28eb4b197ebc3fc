-- ===== src/Telnet/Stream/Safety.antt =====
-- Text written to the telnet handler never leaves its buffers and tables.
use sourcemud.Base.{
  ℕ, zero, suc, ◌-◌, ◌%◌, ◌^◌, ◌≤◌, ◌<◌, ◌≡◌, ◌≢◌, refl, Bool, true, false, ◌&&◌, inl, inr, some,
  List, [], ◌∷◌, ◌++◌, arith,
}
use sourcemud.Base.Int.{ℤ, pos, negsuc}
use sourcemud.Base.Lists.{length, All, length-append, get_elem?_in_range}
use sourcemud.Base.Options.{◌>>=◌}
use sourcemud.Base.Tests.{ltb, leb, ◌==◌, if◌then◌else◌, Bool-cases}
use sourcemud.Base.Text.{Text, codes}
use sourcemud.Strings.Chars.{is_alpha}
use sourcemud.Strings.Numbers.{tolong}
use sourcemud.Telnet.Handler.{
  telnet_send, call, OutputState, ostate_text, ostate_escape, ostate_ansi, ostate_awecode, Handler,
  max_escape_size, ansi_normal, color_values, num_ctypes, get_color, get_color_lem,
}
use sourcemud.Telnet.Chunk.{add32, sub32, output_indent, line_break, end_chunk, add_to_chunk}
use sourcemud.Telnet.Chunk.Safety.{
  EscFits, Fits, Keeps, Keeps-then, Keeps-if, output_indent-Keeps, end_chunk-Keeps,
  add_to_chunk-Keeps, set_indent-Keeps,
}
use sourcemud.Telnet.Stream.{
  to_int, put_space, put_newline, put_escape, put_other, put_text, put_after_escape, store_escape,
  send_color, reset_color, push_color, use_color, send_zmp, color_command, indent_command, awecode,
  end_awecode, put_awecode, end_ansi, put_ansi, put_byte, put_bytes, start_output, stream_put,
}

-- A handler that fits is kept by a step that changes nothing of what fits.
kept : (h : Handler) → Fits 31 h → Keeps 31 (some h)
kept h s = (h, refl, s)

EscFits-le : (o : OutputState) (n : ℕ) → EscFits o n → n ≤ 32
EscFits-le ostate_text n h = h
EscFits-le ostate_escape n h = h
EscFits-le ostate_ansi n h = h
EscFits-le ostate_awecode n h = omega arith

-- Another state and escape in a handler that fits.
restate :
    (h : Handler) (o : OutputState) (esc : Text)
    → EscFits o (length esc)
    → Fits 31 h
    → Fits 31 (record h { ostate = o; esc_buf = esc })
restate h o esc len (chunk, margin, colors, size, set, _) = (chunk, margin, colors, size, set, len)

-- Back to text.
to_text : (h : Handler) → Fits 31 h → Fits 31 (record h { ostate = ostate_text })
to_text h (chunk, margin, colors, size, set, esc) =
    (chunk, margin, colors, size, set, EscFits-le h.ostate (length h.esc_buf) esc)

awecode_room : (h : Handler) → h.ostate ≡ ostate_awecode → Fits 31 h → length h.esc_buf < 32
awecode_room h e (chunk, margin, colors, size, set, esc) = rw e at esc

put_space-Keeps : (h : Handler) → Fits 31 h → Keeps 31 (put_space h)
unfolding put_space line_break
put_space-Keeps h s = Keeps-then 31 31 (end_chunk h) _ (end_chunk-Keeps 31 31 h s) (λ k fits.
    Keeps-if 31 k.io_flags.soft_break _ _ (λ soft. kept k fits)
      (λ hard.
        Keeps-if 31 (ltb 0 k.width && leb (sub32 k.width 2) (add32 k.cur_col 1)) _ _
          (λ wrap. kept _ fits)
          (λ short.
            Keeps-then 31 31 (output_indent k) _ (output_indent-Keeps 31 k fits)
              (λ r fine. kept _ fine))))

break-Fits : (soft : Bool) (h : Handler) → Fits 31 h → Fits 31 (if soft then h else line_break h)
unfolding line_break
break-Fits true h s = s
break-Fits false h s = s

put_newline-Keeps : (h : Handler) → Fits 31 h → Keeps 31 (put_newline h)
unfolding put_newline line_break
put_newline-Keeps h s =
    Keeps-then 31 31 (end_chunk h) _ (end_chunk-Keeps 31 31 h s)
      (λ k fits. kept _ (break-Fits k.io_flags.soft_break k fits))

put_escape-Keeps : (h : Handler) → Fits 31 h → Keeps 31 (put_escape h)
unfolding put_escape
put_escape-Keeps h s =
    Keeps-then 31 31 (end_chunk h >>= output_indent) _
      (Keeps-then 31 31 (end_chunk h) output_indent (end_chunk-Keeps 31 31 h s)
        (output_indent-Keeps 31))
      (λ k fits. kept _ (restate k ostate_escape (0o33 ∷ []) (omega arith) fits))

put_other-Keeps : (c : ℕ) (h : Handler) → Fits 31 h → Keeps 31 (put_other c h)
unfolding put_other
put_other-Keeps c h s =
    Keeps-then 31 31 (add_to_chunk h (c ∷ [])) _ (add_to_chunk-Keeps h (c ∷ []) s)
      (λ k fits. kept _ fits)

put_text-Keeps : (c : ℕ) (h : Handler) → c ≢ b'\t' → Fits 31 h → Keeps 31 (put_text c h)
unfolding put_text
put_text-Keeps c h no_tab s =
    Keeps-if 31 (c == b' ') _ _ (λ space. put_space-Keeps h s)
      (λ no_space.
        Keeps-if 31 (c == b'\n') _ _ (λ newline. put_newline-Keeps h s)
          (λ no_newline.
            Keeps-if 31 (c == 0o33) _ _ (λ escape. put_escape-Keeps h s)
              (λ no_escape.
                Keeps-if 31 (c == b'\t') _ _ (λ tab. absurd (ground arith))
                  (λ other. put_other-Keeps c h s))))

put_after_escape-Keeps : (c : ℕ) (h : Handler) → Fits 31 h → Fits 31 (put_after_escape c h)
unfolding put_after_escape
put_after_escape-Keeps c h s = elim (Bool-cases (c == b'!')) [
  | inl bang ↦ rw bang (restate h ostate_awecode [] (omega arith) s)
  | inr no_bang ↦ elim (Bool-cases (c == b'[')) [
    | inl ansi ↦ rw (no_bang, ansi) (restate h ostate_ansi (0o33 ∷ b'[' ∷ []) (omega arith) s)
    | inr unknown ↦ rw (no_bang, unknown) (to_text h s)
  ]
]

send_color-Keeps : (i : ℕ) (h : Handler) → i < 24 → Fits 31 h → Keeps 31 (send_color i h)
unfolding send_color color_values
send_color-Keeps i h lt s =
    let (text, e) = get_elem?_in_range color_values i lt in (call (telnet_send text) h, rw e, s)

-- A colour at the back of the vector, and one less.
recolor :
    (h : Handler) (colors : List ℕ)
    → All (λ c. c < 24) colors
    → Fits 31 h
    → Fits 31 (record h { colors = colors })
recolor h colors all (chunk, margin, _, size, set, esc) = (chunk, margin, all, size, set, esc)

colors_of : (h : Handler) → Fits 31 h → All (λ c. c < 24) h.colors
colors_of h (chunk, margin, colors, size, set, esc) = colors

reset_color-Keeps :
    (h : Handler) (colors : List ℕ)
    → All (λ c. c < 24) colors
    → Fits 31 h
    → Keeps 31 (reset_color h colors)
unfolding reset_color
reset_color-Keeps h [] all s = kept h s
reset_color-Keeps h (last ∷ []) all s = kept _ (recolor h [] tt s)
reset_color-Keeps h (last ∷ old ∷ rest) (lt, (lt', all)) s =
    send_color-Keeps old (record h { colors = old ∷ rest }) lt'
      (recolor h (old ∷ rest) (lt', all) s)

push_color-Keeps :
    (h : Handler) (i : ℕ) → i < 16 → Fits 31 h → Keeps 31 (push_color h (get_color h i))
unfolding push_color
push_color-Keeps h i lt s =
    let (chunk, margin, colors, size, set, esc) = s in
    let (v, e, color) = get_color_lem h i lt size set in
    rw e (
      send_color-Keeps v (record h { colors = v ∷ h.colors }) color
        (recolor h (v ∷ h.colors) (color, colors) s))

use_color-Keeps : (h : Handler) (n : ℤ) → Fits 31 h → Keeps 31 (use_color h n)
unfolding use_color
use_color-Keeps h (pos zero) s =
    reset_color-Keeps (call (telnet_send ansi_normal) h) h.colors (colors_of h s) s
use_color-Keeps h (pos (suc n)) s =
    Keeps-if 31 (ltb (suc n) num_ctypes) _ _ (λ known. push_color-Keeps h (suc n) (ground arith) s)
      (λ unknown. kept h s)
use_color-Keeps h (negsuc n) s = kept h s

send_zmp-Keeps : (argv : List Text) (h : Handler) → Fits 31 h → Keeps 31 (send_zmp argv h)
unfolding send_zmp
send_zmp-Keeps argv h s =
    Keeps-if 31 h.io_flags.zmp _ _
      (λ zmp. Keeps-then 31 31 (end_chunk h) _ (end_chunk-Keeps 31 31 h s) (λ k fits. kept _ fits))
      (λ no_zmp. kept h s)

color_command-Keeps : (arg : Text) (h : Handler) → Fits 31 h → Keeps 31 (color_command arg h)
unfolding color_command
color_command-Keeps arg h s =
    Keeps-if 31 h.io_flags.zmp_color _ _ (λ zmp. send_zmp-Keeps (codes "color.use" ∷ arg ∷ []) h s)
      (λ no_zmp.
        Keeps-if 31 h.io_flags.use_ansi _ _ (λ ansi. use_color-Keeps h (to_int (tolong arg)) s)
          (λ plain. kept h s))

indent_command-Keeps : (n : ℤ) (h : Handler) → Fits 31 h → Keeps 31 (indent_command n h)
unfolding indent_command
indent_command-Keeps (pos n) h s = set_indent-Keeps h (n % 2 ^ 32) (omega arith) s
indent_command-Keeps (negsuc n) h s = kept h s

awecode-Keeps : (code : Text) (h : Handler) → Fits 31 h → Keeps 31 (awecode code h)
unfolding awecode
awecode-Keeps [] h s = kept h s
awecode-Keeps (c ∷ arg) h s =
    Keeps-if 31 (c == b'C') _ _ (λ color. color_command-Keeps arg h s)
      (λ no_color.
        Keeps-if 31 (c == b'I') _ _ (λ indent. indent_command-Keeps (tolong arg) h s)
          (λ no_indent. Keeps-if 31 (c == b'A') _ _ (λ auto. kept _ s) (λ unknown. kept h s)))

end_awecode-Keeps : (h : Handler) → length h.esc_buf < 32 → Fits 31 h → Keeps 31 (end_awecode h)
unfolding end_awecode
end_awecode-Keeps h lt s =
    Keeps-if 31 (ltb (length h.esc_buf) max_escape_size) _ _
      (λ room.
        Keeps-then 31 31 (awecode h.esc_buf h) _ (awecode-Keeps h.esc_buf h s)
          (λ k fits. kept _ (to_text k fits)))
      (λ full. absurd (ground arith))

-- One more byte in the escape buffer.
one_more :
    (o : OutputState) (c : ℕ) (esc : Text)
    → EscFits o (suc (length esc))
    → EscFits o (length (esc ++ (c ∷ [])))
one_more o c esc room =
    let count : length (esc ++ (c ∷ [])) ≡ suc (length esc) =
      omega (arith, length-append esc (c ∷ [])) in
    rw count room

store_escape-Keeps :
    (c : ℕ) (h : Handler)
    → length h.esc_buf < 32
    → EscFits h.ostate (suc (length h.esc_buf))
    → Fits 31 h
    → Keeps 31 (store_escape c h)
unfolding store_escape
store_escape-Keeps c h lt room s =
    Keeps-if 31 (ltb (length h.esc_buf) max_escape_size) _ _
      (λ stored.
        kept _ (restate h h.ostate (h.esc_buf ++ (c ∷ [])) (one_more h.ostate c h.esc_buf room) s))
      (λ full. absurd (ground arith))

put_awecode-Keeps :
    (c : ℕ) (h : Handler) → h.ostate ≡ ostate_awecode → Fits 31 h → Keeps 31 (put_awecode c h)
unfolding put_awecode
put_awecode-Keeps c h e s =
    Keeps-if 31 (c == b'!') _ _ (λ bang. end_awecode-Keeps h (awecode_room h e s) s)
      (λ data_byte.
        Keeps-if 31 (ltb (length h.esc_buf) (max_escape_size - 1)) _ _
          (λ room. store_escape-Keeps c h (ground arith) (rw e (ground arith)) s)
          (λ full. kept h s))

end_ansi-Fits : (c : ℕ) (h : Handler) → Fits 31 h → Fits 31 (end_ansi c h)
unfolding end_ansi
end_ansi-Fits c h s = elim (Bool-cases (is_alpha c)) [
  | inr inside ↦ rw inside s
  | inl over ↦ elim (Bool-cases h.io_flags.use_ansi) [
    | inl ansi ↦ rw (over, ansi) (to_text h s)
    | inr plain ↦ rw (over, plain) (to_text h s)
  ]
]

put_ansi-Keeps :
    (c : ℕ) (h : Handler) → h.ostate ≡ ostate_ansi → Fits 31 h → Keeps 31 (put_ansi c h)
unfolding put_ansi
put_ansi-Keeps c h e s =
    Keeps-then 31 31 (if ltb (length h.esc_buf) max_escape_size then store_escape c h else some h) _
      (Keeps-if 31 (ltb (length h.esc_buf) max_escape_size) _ _
        (λ room. store_escape-Keeps c h (ground arith) (rw e (ground arith)) s) (λ full. kept h s))
      (λ k fits. kept _ (end_ansi-Fits c k fits))

put_byte-Keeps :
    (o : OutputState) (c : ℕ) (h : Handler)
    → h.ostate ≡ o
    → c ≢ b'\t'
    → Fits 31 h
    → Keeps 31 (put_byte o c h)
unfolding put_byte
put_byte-Keeps ostate_text c h e no_tab s = put_text-Keeps c h no_tab s
put_byte-Keeps ostate_escape c h e no_tab s = kept _ (put_after_escape-Keeps c h s)
put_byte-Keeps ostate_awecode c h e no_tab s = put_awecode-Keeps c h e s
put_byte-Keeps ostate_ansi c h e no_tab s = put_ansi-Keeps c h e s

put_bytes-Keeps :
    (text : Text) (h : Handler)
    → All (λ c. c ≢ b'\t') text
    → Fits 31 h
    → Keeps 31 (put_bytes text h)
unfolding put_bytes
put_bytes-Keeps [] h all s = kept h s
put_bytes-Keeps (c ∷ cs) h all s =
    Keeps-then 31 31 (put_byte h.ostate c h) _ (put_byte-Keeps h.ostate c h refl all.0 s)
      (λ k fits. put_bytes-Keeps cs k all.1 fits)

pub start_output-Fits : (h : Handler) → Fits 31 h → Fits 31 (start_output h)
unfolding start_output
start_output-Fits h s = elim (Bool-cases h.io_flags.need_newline) [
  | inl newline ↦ rw newline s
  | inr none_needed ↦ rw none_needed s
]

-- Text without a tab is written without a fault: from a handler in which the chunk and the escape
-- buffer have room and every colour is one of the table, the call has a result, which is again such
-- a handler. So no byte is written behind a buffer, no table is read behind its end, and every loop
-- ends.
pub stream_put-Fits :
    (text : Text) (h : Handler)
    → All (λ c. c ≢ b'\t') text
    → Fits 31 h
    → (h' : Handler) × (stream_put text h ≡ some h') × Fits 31 h'
unfolding stream_put
stream_put-Fits text h all s =
    Keeps-then 31 31 (put_bytes text (start_output h)) _
      (put_bytes-Keeps text (start_output h) all (start_output-Fits h s)) (λ k fits. kept _ fits)
