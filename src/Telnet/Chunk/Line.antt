-- ===== src/Telnet/Chunk/Line.antt =====
-- What the end of a chunk does to the line.
use sourcemud.Base.{◌≡◌, refl, false, ◌&&◌, inl, inr, some, [], arith}
use sourcemud.Base.Options.{◌>>=◌, >>=-eq-some}
use sourcemud.Base.Tests.{ltb, leb, Bool-cases}
use sourcemud.Telnet.Handler.{Handler}
use sourcemud.Telnet.Chunk.{add32, sub32, output_indent, line_break, send_chunk, end_chunk}

-- At a margin of 0 nothing is indented.
pub output_indent_flat : (h : Handler) → h.margin ≡ 0 → output_indent h ≡ some h
unfolding output_indent
output_indent_flat h flat =
    let at_margin : ltb h.cur_col h.margin ≡ false = ground arith in rw at_margin

sent_hard : (k h' : Handler) → some (send_chunk k) ≡ some h' → h'.io_flags.soft_break ≡ false
unfolding send_chunk
sent_hard k h' e = let same : send_chunk k ≡ h' = cc in rw (← same) refl

-- No soft break is left behind a chunk.
pub end_chunk_hard : (h h' : Handler) → end_chunk h ≡ some h' → h'.io_flags.soft_break ≡ false
unfolding end_chunk
end_chunk_hard h h' e =
    elim (Bool-cases (ltb 0 h.width && leb (sub32 h.width 2) (add32 h.chunkwidth h.cur_col))) [
      | inr short ↦ sent_hard h h' (rw short at e)
      | inl wrap ↦
          let wrapped : output_indent (line_break h) >>= (λ k. some (send_chunk k)) ≡ some h' =
            rw wrap at e in
          let (k, e₁, e₂) = >>=-eq-some (output_indent (line_break h)) _ wrapped in
          sent_hard k h' e₂
    ]

-- At a margin of 0 the end of a chunk has a result in the same state, and an empty chunk at the
-- start of a line leaves the line empty.
pub end_chunk_flat :
    (h : Handler)
    → h.margin ≡ 0
    → (r : Handler) × (end_chunk h ≡ some r)
      × (r.margin ≡ 0)
      × (r.ostate ≡ h.ostate)
      × (r.chunk ≡ [])
      × (h.chunk ≡ [] → h.cur_col ≡ 0 → r.cur_col ≡ 0)
unfolding end_chunk line_break
end_chunk_flat h flat =
    elim (Bool-cases (ltb 0 h.width && leb (sub32 h.width 2) (add32 h.chunkwidth h.cur_col))) [
      | inr short ↦
          (send_chunk h, rw short, flat, refl, refl, λ no_chunk start. rw (no_chunk, start))
      | inl wrap ↦ (
        send_chunk (line_break h),
        rw (wrap, output_indent_flat (line_break h) flat),
        flat,
        refl,
        refl,
        λ no_chunk start. rw no_chunk,
      )
    ]
