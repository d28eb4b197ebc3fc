-- ===== src/Telnet/Chunk/Safety.antt =====
-- The chunk stays within its buffer, and every operation on it has a result.
use sourcemud.Base.{
  ℕ, zero, suc, ◌+◌, ◌-◌, ◌^◌, ◌≤◌, ◌<◌, ◌≡◌, refl, Bool, true, false, ◌&&◌, inl, inr, Option, some,
  [], ◌∷◌, arith,
}
use sourcemud.Base.Lists.{length, take, drop, All, length-append, length-take, length-drop}
use sourcemud.Base.Loops.{loop-Ends}
use sourcemud.Base.Options.{◌>>=◌}
use sourcemud.Base.Tests.{ltb, leb, ◌==◌, if◌then◌else◌, Bool-cases}
use sourcemud.Base.Text.{Text}
use sourcemud.Telnet.Handler.{
  OutputState, ostate_awecode, Handler, IsColor, chunk_buffer_size, max_escape_size,
}
use sourcemud.Telnet.Chunk.{
  add32, sub32, far_left, indent_block, indent_rest, output_indent, line_break, send_chunk,
  end_chunk, store_chunk, end_full_chunk, fill_chunk, add_to_chunk, set_indent,
}

-- How much of the escape buffer is in use; a code of the text's own leaves room for its end.
abbrev pub EscFits : OutputState → ℕ → Type 0
EscFits ostate_awecode n = n < max_escape_size
EscFits _ n = n ≤ max_escape_size

-- At most `n` bytes in the chunk, and every other buffer and table index in range.
abbrev pub Fits : ℕ → Handler → Type 0
Fits n h =
    (length h.chunk ≤ n)
    × (h.margin < 2 ^ 32)
    × All (λ c. c < 24) h.colors
    × (length h.color_set ≡ 16)
    × All IsColor h.color_set
    × EscFits h.ostate (length h.esc_buf)

-- Another chunk in a handler that fits.
refit :
    (n k : ℕ) (h : Handler) (chunk : Text)
    → length chunk ≤ k
    → Fits n h
    → Fits k (record h { chunk = chunk })
refit n k h chunk len (_, margin, colors, size, set, esc) = (len, margin, colors, size, set, esc)

-- A step that has a result, which fits.
abbrev pub Keeps : ℕ → Option Handler → Type 0
Keeps n o = (h : Handler) × (o ≡ some h) × Fits n h

pub Keeps-then :
    (n k : ℕ) (o : Option Handler) (f : Handler → Option Handler)
    → Keeps n o
    → ((h : Handler) → Fits n h → Keeps k (f h))
    → Keeps k (o >>= f)
Keeps-then n k o f (h, e, s) next = let (h', e', s') = next h s in (h', rw e e', s')

pub Keeps-if :
    (n : ℕ) (b : Bool) (o p : Option Handler)
    → (b ≡ true → Keeps n o)
    → (b ≡ false → Keeps n p)
    → Keeps n (if b then o else p)
Keeps-if n true o p then_fits else_fits = then_fits refl
Keeps-if n false o p then_fits else_fits = else_fits refl

-- A round of the indentation comes nearer to the margin.
indent_block_less :
    (h : Handler)
    → h.margin < 2 ^ 32
    → far_left h ≡ true
    → (indent_block h).margin - (indent_block h).cur_col < h.margin - h.cur_col
indent_block_less h m go = ground arith

pub output_indent-Keeps : (n : ℕ) (h : Handler) → Fits n h → Keeps n (output_indent h)
unfolding output_indent
output_indent-Keeps n h s = elim (Bool-cases (ltb h.cur_col h.margin)) [
  | inr at_margin ↦ (h, rw at_margin, s)
  | inl indent ↦
      let (r, e, fits, stop) =
        loop-Ends (Fits n) (λ k. k.margin - k.cur_col) far_left indent_block
          (λ k fits go. (fits, indent_block_less k fits.1 go)) (h.margin + 1) h (omega arith) s in
      (indent_rest r, rw (indent, e), fits)
]

pub end_chunk-Keeps : (n k : ℕ) (h : Handler) → Fits n h → Keeps k (end_chunk h)
unfolding end_chunk
end_chunk-Keeps n k h s =
    elim (Bool-cases (ltb 0 h.width && leb (sub32 h.width 2) (add32 h.chunkwidth h.cur_col))) [
      | inr short ↦ (send_chunk h, rw short, refit n k h [] (omega arith) s)
      | inl wrap ↦
          let (r, e, fits) = output_indent-Keeps n (line_break h) s in
          (send_chunk r, rw (wrap, e), refit n k r [] (omega arith) fits)
    ]

store_chunk_room : (h : Handler) (text : Text) → Fits 31 h → length (store_chunk h text).chunk ≤ 32
unfolding store_chunk
store_chunk_room h text s = ground (
  arith,
  length-append h.chunk (take (chunk_buffer_size - length h.chunk) text),
  length-take (chunk_buffer_size - length h.chunk) text,
)

end_full_chunk-Keeps : (h : Handler) → Fits 32 h → Keeps 31 (end_full_chunk h)
unfolding end_full_chunk
end_full_chunk-Keeps h s = elim (Bool-cases (length h.chunk == chunk_buffer_size)) [
  | inr room ↦ (h, rw room, refit 32 31 h h.chunk (ground arith) s)
  | inl full ↦ let (r, e, fits) = end_chunk-Keeps 32 31 h s in (r, rw full e, fits)
]

fill_chunk-Keeps :
    (fuel : ℕ) (h : Handler) (text : Text)
    → length text ≤ fuel
    → Fits 31 h
    → Keeps 31 (fill_chunk fuel h text)
unfolding fill_chunk
fill_chunk-Keeps fuel h [] room s = (h, refl, s)
fill_chunk-Keeps zero h (c ∷ cs) room s = absurd (omega arith)
fill_chunk-Keeps (suc fuel) h (c ∷ cs) room s =
    Keeps-then 31 31 (end_full_chunk (store_chunk h (c ∷ cs))) _
      (end_full_chunk-Keeps (store_chunk h (c ∷ cs))
        (refit 31 32 h _ (store_chunk_room h (c ∷ cs) s) s))
      (λ k fits.
        fill_chunk-Keeps fuel k (drop (chunk_buffer_size - length h.chunk) (c ∷ cs))
          (omega (arith, length-drop (chunk_buffer_size - length h.chunk) (c ∷ cs), s.0)) fits)

pub add_to_chunk-Keeps : (h : Handler) (text : Text) → Fits 31 h → Keeps 31 (add_to_chunk h text)
unfolding add_to_chunk
add_to_chunk-Keeps h text s =
    Keeps-then 31 31 (output_indent h) _ (output_indent-Keeps 31 h s)
      (λ k fits. fill_chunk-Keeps (length text) k text (omega arith) fits)

pub set_indent-Keeps :
    (h : Handler) (amount : ℕ) → amount < 2 ^ 32 → Fits 31 h → Keeps 31 (set_indent h amount)
unfolding set_indent
set_indent-Keeps h amount lt s =
    Keeps-then 31 31 (end_chunk h) _ (end_chunk-Keeps 31 31 h s) (λ k fits.
      let (len, margin, colors, size, set, esc) = fits in
      (record k { margin = amount }, refl, (len, lt, colors, size, set, esc)))
