-- ===== src/Telnet/Stream/Breaks.antt =====
-- Newlines and tabs in the text written to the telnet handler.
use sourcemud.Base.{ℕ, ◌≡◌, refl, ap, ◌∙◌, true, false, inl, inr, none, some, [], ◌∷◌, ◌++◌}
use sourcemud.Base.Options.{◌>>=◌}
use sourcemud.Base.Tests.{Bool-cases}
use sourcemud.Base.Text.{Text, codes}
use sourcemud.Telnet.Handler.{telnet_printf, ostate_text, Handler}
use sourcemud.Telnet.Chunk.{line_break, end_chunk}
use sourcemud.Telnet.Chunk.Line.{output_indent_flat, end_chunk_hard, end_chunk_flat}
use sourcemud.Telnet.Chunk.Safety.{Fits, end_chunk-Keeps}
use sourcemud.Telnet.Stream.Safety.{start_output-Fits}
use sourcemud.Telnet.Stream.{
  put_newline, put_text, tab_stop, put_tab, put_byte, put_bytes, start_output, stream_put,
}

-- A newline after whatever was written.
put_newline_lem :
    (h r : Handler)
    → end_chunk h ≡ some r
    → put_newline h
      ≡ some (record (line_break r) { io_flags = record r.io_flags { soft_break = false } })
unfolding put_newline
put_newline_lem h r e = rw (e, end_chunk_hard h r e)

-- The first byte of a text in the plain state.
put_bytes_text :
    (k : Handler) (c : ℕ) (cs : Text)
    → k.ostate ≡ ostate_text
    → put_bytes (c ∷ cs) k ≡ put_text c k >>= (λ k'. put_bytes cs k')
unfolding put_bytes put_byte
put_bytes_text k c cs state = ap (λ o. put_byte o c k >>= (λ k'. put_bytes cs k')) state

-- At the start of a line a tab fails.
put_tab_start : (h : Handler) → h.margin ≡ 0 → h.chunk ≡ [] → h.cur_col ≡ 0 → put_tab h ≡ none
unfolding put_tab tab_stop
put_tab_start h flat no_chunk start =
    let (r, e, flat', state, no_chunk', start') = end_chunk_flat h flat in
    rw (e, output_indent_flat r flat', start' no_chunk start)

put_bytes_tab :
    (k : Handler) (text : Text)
    → k.ostate ≡ ostate_text
    → k.margin ≡ 0
    → put_bytes (b'\n' ∷ b'\t' ∷ text) k ≡ none
unfolding put_text line_break
put_bytes_tab k text state flat =
    let (r, e, flat', state', no_chunk, start) = end_chunk_flat k flat in
    let r' = record (line_break r) { io_flags = record r.io_flags { soft_break = false } } in
    put_bytes_text k b'\n' (b'\t' ∷ text) state
    ∙ ap (λ o. o >>= (λ k'. put_bytes (b'\t' ∷ text) k')) (put_newline_lem k r e)
    ∙ put_bytes_text r' b'\t' text (state' ∙ state)
    ∙ ap (λ o. o >>= (λ k'. put_bytes text k')) (put_tab_start r' flat' no_chunk refl)

start_output_keeps :
    (h : Handler) → ((start_output h).ostate ≡ h.ostate) × ((start_output h).margin ≡ h.margin)
unfolding start_output
start_output_keeps h = elim (Bool-cases h.io_flags.need_newline) [
  | inl newline ↦ rw newline (refl, refl)
  | inr none_needed ↦ rw none_needed (refl, refl)
]

-- In the plain state and without a margin, a tab right behind a newline is a fault, whatever follows:
-- its width is a remainder by the column, which is 0.
pub stream_put_tab :
    (h : Handler) (text : Text)
    → h.ostate ≡ ostate_text
    → h.margin ≡ 0
    → stream_put (b'\n' ∷ b'\t' ∷ text) h ≡ none
unfolding stream_put
stream_put_tab h text state flat =
    let (state', flat') = start_output_keeps h in
    rw (put_bytes_tab (start_output h) text (state' ∙ state) (flat' ∙ flat))

-- In the plain state of a handler whose buffers have room, writing a newline ends the chunk, prints a
-- newline and starts a line, also behind a soft break: the end of the chunk has cleared the flag
-- before it is tested.
pub stream_put_newline :
    (h : Handler)
    → h.ostate ≡ ostate_text
    → Fits 31 h
    → (r h' : Handler) × (end_chunk (start_output h) ≡ some r)
      × (stream_put (b'\n' ∷ []) h ≡ some h')
      × (h'.sent ≡ r.sent ++ (telnet_printf (codes "\n") ∷ []))
      × (h'.cur_col ≡ 0)
unfolding stream_put put_text line_break
stream_put_newline h state s =
    let (state', flat') = start_output_keeps h in
    let (r, e, fits) = end_chunk-Keeps 31 31 (start_output h) (start_output-Fits h s) in
    (
      r,
      record (line_break r) {
        io_flags = record r.io_flags { soft_break = false; need_prompt = true };
      },
      e,
      rw (
        put_bytes_text (start_output h) b'\n' [] (state' ∙ state),
        put_newline_lem (start_output h) r e,
        put_bytes,
      ),
      refl,
      refl,
    )
