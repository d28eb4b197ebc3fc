-- ===== src/Zmp/RoundTrip.antt =====
-- The parse of a request against the bytes of one.
use sourcemud.Base.{
  ℕ, zero, suc, ◌≡◌, ◌≢◌, ◌⊎◌, ◌∙◌, refl, ap, inl, inr, true, false, ◌&&◌, Option, none, some, List,
  [], ◌∷◌, ◌++◌, arith,
}
use sourcemud.Base.Lists.{take, All}
use sourcemud.Base.Options.{◌>>=◌}
use sourcemud.Base.Tests.{◌==◌, Bool-cases, Option-cases}
use sourcemud.Base.Text.{Text}
use sourcemud.Strings.Chars.{c_str, is_print}
use sourcemud.Strings.Split.{Lacks}
use sourcemud.Zmp.{
  ZmpCommand, last_byte, ends_with_byte, lookup, check_zmp_chunk, after_nul, zmp_args, zmp_call,
  process_zmp, payload,
}

c_str-Lacks : (p rest : Text) → Lacks 0 p → c_str (p ++ (0 ∷ rest)) ≡ p
unfolding c_str
c_str-Lacks [] rest h = refl
c_str-Lacks (c ∷ p) rest h = ground (arith, h.0, c_str-Lacks p rest h.1)

after_nul_run : (p rest : Text) → Lacks 0 p → after_nul (p ++ (0 ∷ rest)) ≡ some rest
unfolding after_nul
after_nul_run [] rest h = refl
after_nul_run (c ∷ p) rest h = ground (arith, h.0, after_nul_run p rest h.1)

zmp_args_step :
    (room : ℕ) (text rest : Text)
    → after_nul text ≡ some rest
    → rest ≢ []
    → zmp_args (suc room) text ≡ zmp_args room rest >>= (λ args. some (c_str rest ∷ args))
unfolding zmp_args
zmp_args_step room text [] e more = absurd (more refl)
zmp_args_step room text (c ∷ cs) e more = rw e refl

payload_more : (a : Text) (args : List Text) → payload (a ∷ args) ≢ []
unfolding payload
payload_more [] args e = cc
payload_more (c ∷ a) args e = cc

zmp_args-payload :
    (room : ℕ) (a : Text) (args : List Text)
    → Lacks 0 a
    → All (Lacks 0) args
    → zmp_args room (payload (a ∷ args)) ≡ some (take room args)
unfolding payload
zmp_args-payload zero a args h hs = unfold zmp_args in refl
zmp_args-payload (suc room) a [] h hs = unfold zmp_args in rw (after_nul_run a [] h) refl
zmp_args-payload (suc room) a (b ∷ bs) h hs =
    zmp_args_step room (payload (a ∷ b ∷ bs)) (payload (b ∷ bs))
      (after_nul_run a (payload (b ∷ bs)) h) (payload_more b bs)
    ∙ ap (λ o. o >>= (λ args. some (c_str (payload (b ∷ bs)) ∷ args)))
        (zmp_args-payload room b bs hs.0 hs.1)
    ∙ ap (λ t. some (t ∷ take room bs)) (c_str-Lacks b (payload bs) hs.0)

last_byte-append : (p : Text) (c : ℕ) → last_byte (p ++ (c ∷ [])) ≡ some c
unfolding last_byte
last_byte-append [] c = refl
last_byte-append (x ∷ []) c = refl
last_byte-append (x ∷ y ∷ p) c = last_byte-append (y ∷ p) c

last_byte_behind : (p rest : Text) → rest ≢ [] → last_byte (p ++ rest) ≡ last_byte rest
unfolding last_byte
last_byte_behind [] rest more = refl
last_byte_behind (x ∷ []) [] more = absurd (more refl)
last_byte_behind (x ∷ []) (c ∷ rest) more = refl
last_byte_behind (x ∷ y ∷ p) rest more = last_byte_behind (y ∷ p) rest more

last_byte-payload : (a : Text) (args : List Text) → last_byte (payload (a ∷ args)) ≡ some 0
unfolding payload
last_byte-payload a [] = last_byte-append a 0
last_byte-payload a (b ∷ bs) =
    last_byte_behind a (0 ∷ payload (b ∷ bs)) (λ e. cc)
    ∙ last_byte_behind (0 ∷ []) (payload (b ∷ bs)) (payload_more b bs)
    ∙ last_byte-payload b bs

ends_with_byte-payload :
    (a : Text) (args : List Text) → ends_with_byte 0 (payload (a ∷ args)) ≡ true
unfolding ends_with_byte
ends_with_byte-payload a args = rw (last_byte-payload a args, ends_with_byte) refl

check_zmp_chunk_long :
    (c : ℕ) (rest : Text)
    → rest ≢ []
    → check_zmp_chunk (c ∷ rest) ≡ is_print c && ends_with_byte 0 (c ∷ rest)
unfolding check_zmp_chunk
check_zmp_chunk_long c [] more = absurd (more refl)
check_zmp_chunk_long c (d ∷ ds) more = refl

check_zmp_chunk-payload :
    (c : ℕ) (name : Text) (args : List Text)
    → is_print c ≡ true
    → check_zmp_chunk (payload ((c ∷ name) ∷ args)) ≡ true
unfolding payload
check_zmp_chunk-payload c name args printed =
    check_zmp_chunk_long c (name ++ (0 ∷ payload args)) (payload_more name args)
    ∙ rw printed (ends_with_byte-payload (c ∷ name) args)

-- A request written by `sendZmp`, with a name that begins with a printable byte, calls the handler
-- registered for the name, with the name and at most 19 arguments behind it.
pub process_zmp-payload :
    (commands : List ZmpCommand) (command : ZmpCommand) (c : ℕ) (name : Text) (args : List Text)
    → is_print c ≡ true
    → All (Lacks 0) ((c ∷ name) ∷ args)
    → lookup commands (c ∷ name) ≡ some command
    → process_zmp commands (payload ((c ∷ name) ∷ args))
      ≡ some (some (command.function, (c ∷ name) ∷ take 19 args))
unfolding process_zmp zmp_call
process_zmp-payload commands command c name args printed h found =
    let chunk = payload ((c ∷ name) ∷ args) in
    let first : c_str chunk ≡ c ∷ name =
      unfold payload in c_str-Lacks (c ∷ name) (payload args) h.0 in
    let fine = check_zmp_chunk-payload c name args printed in
    rw (fine, first, found, zmp_args-payload 19 (c ∷ name) args h.0 h.1)
      (ap (λ t. some (some (command.function, t ∷ take 19 args))) first)

after_nul_last :
    (text : Text)
    → last_byte text ≡ some 0
    → (rest : Text) × (after_nul text ≡ some rest) × ((rest ≡ []) ⊎ (last_byte rest ≡ some 0))
unfolding after_nul last_byte
after_nul_last [] h = cc
after_nul_last (c ∷ []) h = ([], ground (arith, h), inl refl)
after_nul_last (c ∷ d ∷ ds) h = elim (Bool-cases (c == 0)) [
  | inl nul ↦ (d ∷ ds, rw (nul, after_nul) refl, inr h)
  | inr other ↦
      let (rest, e, more) = after_nul_last (d ∷ ds) h in (rest, rw (other, after_nul) e, more)
]

last_byte-nonempty : (text : Text) → last_byte text ≡ some 0 → text ≢ []
unfolding last_byte
last_byte-nonempty [] h e = cc
last_byte-nonempty (c ∷ cs) h e = cc

zmp_args_total :
    (room : ℕ) (text : Text)
    → last_byte text ≡ some 0
    → (args : List Text) × (zmp_args room text ≡ some args)
unfolding zmp_args
zmp_args_total zero text h = ([], refl)
zmp_args_total (suc room) text h =
    let (rest, e, more) = after_nul_last text h in
    elim more [
      | inl over ↦ ([], rw (e, over, zmp_args) refl)
      | inr again ↦
          let (args, e') = zmp_args_total room rest again in
          (
            c_str rest ∷ args,
            zmp_args_step room text rest e (last_byte-nonempty rest again)
                ∙ ap (λ o. o >>= (λ us. some (c_str rest ∷ us))) e',
          )
    ]

ends_with_byte-last_byte : (text : Text) → ends_with_byte 0 text ≡ true → last_byte text ≡ some 0
unfolding ends_with_byte
ends_with_byte-last_byte text h = elim (Option-cases (last_byte text)) [
  | inl empty ↦ let bad : false ≡ true = rw (empty, ends_with_byte) at h in cc
  | inr (c, e) ↦ let zero_byte : (c == 0) ≡ true = rw (e, ends_with_byte) at h in ground (arith, e)
]

check_zmp_chunk-last_byte : (chunk : Text) → check_zmp_chunk chunk ≡ true → last_byte chunk ≡ some 0
unfolding check_zmp_chunk
check_zmp_chunk-last_byte [] h = cc
check_zmp_chunk-last_byte (c ∷ []) h = cc
check_zmp_chunk-last_byte (c ∷ d ∷ ds) h = ends_with_byte-last_byte (c ∷ d ∷ ds) (ground arith)

-- Whatever bytes a client sends as a request, the parse never leaves them.
pub process_zmp_total :
    (commands : List ZmpCommand) (chunk : Text)
    → (r : Option (ℕ × List Text)) × (process_zmp commands chunk ≡ some r)
unfolding process_zmp zmp_call
process_zmp_total commands chunk = elim (Bool-cases (check_zmp_chunk chunk)) [
  | inr bad ↦ (none, rw (bad, process_zmp) refl)
  | inl fine ↦ elim (Option-cases (lookup commands (c_str chunk))) [
    | inl unknown ↦ (none, rw (fine, unknown) refl)
    | inr (command, found) ↦
        let (args, e) = zmp_args_total 19 chunk (check_zmp_chunk-last_byte chunk fine) in
        (some (command.function, c_str chunk ∷ args), rw (fine, found, e) refl)
  ]
]
