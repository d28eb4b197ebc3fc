-- ===== src/Telnet/Examples.antt =====
-- Runs of the telnet handler's output.
use sourcemud.Base.{◌≡◌, refl, none, some, [], ◌∷◌, ◌++◌, arith}
use sourcemud.Base.Text.{Text, codes}
use sourcemud.Telnet.Handler.{telnet_printf, Handler, new_handler}
use sourcemud.Telnet.Chunk.{end_chunk}
use sourcemud.Telnet.Chunk.Safety.{Fits}
use sourcemud.Telnet.Stream.{start_output, stream_put}
use sourcemud.Telnet.Stream.Breaks.{stream_put_tab, stream_put_newline}
use sourcemud.Telnet.Stream.Safety.{stream_put-Fits}

-- A colour, a word, a space, another word and a newline.
abbrev colored_line : Text
colored_line = 0o33 ∷ b'!' ∷ b'C' ∷ b'3' ∷ b'!' ∷ codes "hi there\n"

new_handler-Fits : Fits 31 new_handler
new_handler-Fits = (
  omega arith,
  omega arith,
  tt,
  refl,
  (
    tt,
    (tt, (tt, (tt, (tt, (tt, (tt, (tt, (tt, (tt, (tt, (tt, (tt, (tt, (tt, (tt, tt))))))))))))))),
  ),
  omega arith,
)

stream_put-Fits_example :
    (h' : Handler) × (stream_put colored_line new_handler ≡ some h') × Fits 31 h'
stream_put-Fits_example = stream_put-Fits colored_line new_handler (omega arith) new_handler-Fits

stream_put_tab_example : stream_put (b'\n' ∷ b'\t' ∷ codes "end") new_handler ≡ none
stream_put_tab_example = stream_put_tab new_handler (codes "end") refl refl

stream_put_newline_example :
    (r h' : Handler) × (end_chunk (start_output new_handler) ≡ some r)
    × (stream_put (b'\n' ∷ []) new_handler ≡ some h')
    × (h'.sent ≡ r.sent ++ (telnet_printf (codes "\n") ∷ []))
    × (h'.cur_col ≡ 0)
stream_put_newline_example = stream_put_newline new_handler refl new_handler-Fits
