-- ===== src/Telnet/Chunk.antt =====
-- The output chunk of the telnet handler: the indentation, `endChunk`, `addToChunk` and `setIndent`
-- of src/net/telnet.cc.
pub mod Safety
pub mod Line
use sourcemud.Base.{
  ℕ, zero, suc, ◌+◌, ◌-◌, ◌%◌, ◌^◌, Bool, false, ◌&&◌, Option, none, some, [], ◌∷◌, ◌++◌,
}
use sourcemud.Base.Lists.{length, take, drop}
use sourcemud.Base.Loops.{loop}
use sourcemud.Base.Options.{◌>>=◌}
use sourcemud.Base.Tests.{ltb, leb, ◌==◌, if◌then◌else◌}
use sourcemud.Base.Text.{Text, codes}
use sourcemud.Telnet.Handler.{telnet_send, telnet_printf, Handler, chunk_buffer_size, call}

abbrev pub replicate : ℕ → ℕ → Text
replicate zero c = []
replicate (suc n) c = c ∷ replicate n c

-- `uint` sums and differences.
abbrev pub add32 : ℕ → ℕ → ℕ
add32 a b = (a + b) % 2 ^ 32

abbrev pub sub32 : ℕ → ℕ → ℕ
sub32 a b = (a + 2 ^ 32 - b) % 2 ^ 32

-- OUTPUT_INDENT: blocks of 16 spaces, and the rest.
abbrev far_left : Handler → Bool
far_left h = leb 16 (h.margin - h.cur_col)

abbrev indent_block : Handler → Handler
indent_block h = call (telnet_send (replicate 16 b' ')) (record h { cur_col = add32 h.cur_col 16 })

indent_rest : Handler → Handler
indent_rest h = record (call (telnet_send (replicate (h.margin - h.cur_col) b' ')) h) {
  cur_col = h.margin;
}

unfoldable pub output_indent : Handler → Option Handler
unfolding indent_rest
output_indent h =
    if ltb h.cur_col h.margin
    then loop (h.margin + 1) far_left indent_block h >>= (λ h'. some (indent_rest h'))
    else some h

unfoldable pub line_break : Handler → Handler
line_break h = record (call (telnet_printf (codes "\n")) h) { cur_col = 0 }

-- The end of `endChunk`.
send_chunk : Handler → Handler
send_chunk h = record (call (telnet_send h.chunk) h) {
  cur_col = add32 h.cur_col (length h.chunk);
  chunk = [];
  chunkwidth = 0;
  io_flags = record h.io_flags { soft_break = false };
}

unfoldable pub end_chunk : Handler → Option Handler
unfolding line_break send_chunk output_indent
end_chunk h =
    if ltb 0 h.width && leb (sub32 h.width 2) (add32 h.chunkwidth h.cur_col)
    then output_indent (line_break h) >>= (λ h'. some (send_chunk h'))
    else some (send_chunk h)

-- One round of `addToChunk`: as much of the data as there is room for.
store_chunk : Handler → Text → Handler
store_chunk h text =
    let write = take (chunk_buffer_size - length h.chunk) text in
    record h { chunk = h.chunk ++ write; chunkwidth = add32 h.chunkwidth (length write) }

end_full_chunk : Handler → Option Handler
unfolding end_chunk
end_full_chunk h = if length h.chunk == chunk_buffer_size then end_chunk h else some h

-- The loop of `addToChunk`, on fuel.
fill_chunk : ℕ → Handler → Text → Option Handler
unfolding store_chunk end_full_chunk
fill_chunk fuel h [] = some h
fill_chunk zero h (c ∷ cs) = none
fill_chunk (suc fuel) h (c ∷ cs) = end_full_chunk (store_chunk h (c ∷ cs)) >>= λ h'.
    fill_chunk fuel h' (drop (chunk_buffer_size - length h.chunk) (c ∷ cs))

unfoldable pub add_to_chunk : Handler → Text → Option Handler
unfolding output_indent fill_chunk
add_to_chunk h text = output_indent h >>= λ h'. fill_chunk (length text) h' text

unfoldable pub set_indent : Handler → ℕ → Option Handler
unfolding end_chunk
set_indent h amount = end_chunk h >>= λ h'. some (record h' { margin = amount })
