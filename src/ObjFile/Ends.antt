-- ===== src/ObjFile/Ends.antt =====
-- File::Reader on a text that is empty or ends with a newline comes to an end.
use sourcemud.Base.{
  ℕ, suc, ◌<◌, ◌≡◌, ◌≢◌, ◌⊎◌, refl, Bool, true, false, ◌||◌, Option, none, some, inl, inr, [], ◌∷◌,
  ◌++◌, arith,
}
use sourcemud.Base.Lists.{length}
use sourcemud.Base.Tests.{◌==◌, if◌then◌else◌}
use sourcemud.Base.Text.{Text, codes, text_eq}
use sourcemud.Strings.Chars.{is_alpha, is_digit, is_space}
use sourcemud.ObjFile.Outcome.{Outcome, ok, thrown, endless, ◌>>=◌}
use sourcemud.ObjFile.Reader.{
  Reader, Token, token_eof, next_line, scan, symbol, unescape, push, read_string, span,
  is_name_char, is_block_end, read_block, end_of_line, Lexeme, lexeme, read_begin, other_token,
  token_from, read_token,
}
use sourcemud.ObjFile.Writer.{ends_with_newline}

-- An outcome that is no endless loop, and whose result has a property.
abbrev pub Settles {ℓ} : {A : Type ℓ} → (A → Type 0) → Outcome A → Type 0
Settles P (ok a) = P a
Settles P (thrown what) = Unit {0}
Settles P endless = ⊥

pub Settles-bind {ℓ κ} :
    {A : Type ℓ} {B : Type κ} (P : A → Type 0) (Q : B → Type 0) (o : Outcome A) (f : A → Outcome B)
    → Settles P o
    → ((a : A) → P a → Settles Q (f a))
    → Settles Q (o >>= f)
Settles-bind P Q (ok a) f h next = next a h
Settles-bind P Q (thrown what) f h next = tt
Settles-bind P Q endless f h next = h

pub Settles-mono {ℓ} :
    {A : Type ℓ} (P Q : A → Type 0) (o : Outcome A)
    → ((a : A) → P a → Q a)
    → Settles P o
    → Settles Q o
Settles-mono P Q (ok a) f h = f a h
Settles-mono P Q (thrown what) f h = tt
Settles-mono P Q endless f h = h

-- The two branches of a test.
test_cases {ℓ} :
    {A : Type ℓ} (P : A → Type 0) (b : Bool) (x y : A)
    → (b ≡ true → P x)
    → (b ≡ false → P y)
    → P (elim b [ true ↦ x | false ↦ y ])
test_cases P true x y h k = h refl
test_cases P false x y h k = k refl

pub Settles-test {ℓ} :
    {A : Type ℓ} (P : A → Type 0) (b : Bool) (x y : Outcome A)
    → (b ≡ true → Settles P x)
    → (b ≡ false → Settles P y)
    → Settles P (elim b [ true ↦ x | false ↦ y ])
Settles-test P true x y h k = h refl
Settles-test P false x y h k = k refl

pub Settles-if {ℓ} :
    {A : Type ℓ} (P : A → Type 0) (b : Bool) (x y : Outcome A)
    → (b ≡ true → Settles P x)
    → (b ≡ false → Settles P y)
    → Settles P (if b then x else y)
Settles-if P true x y h k = h refl
Settles-if P false x y h k = k refl

-- Empty, or with a newline at the end.
abbrev pub IsClosed : Text → Type 0
IsClosed t = (t ≡ []) ⊎ (ends_with_newline t ≡ true)

pub IsClosed-tail : (c : ℕ) (cs : Text) → IsClosed (c ∷ cs) → IsClosed cs
unfolding ends_with_newline
IsClosed-tail c [] h = inl refl
IsClosed-tail c (d ∷ ds) (inl e) = cc
IsClosed-tail c (d ∷ ds) (inr e) = inr e

IsClosed-comment : (c : ℕ) (cs : Text) → c ≢ b'\n' → IsClosed (c ∷ cs) → ends_with_newline cs ≡ true
unfolding ends_with_newline
IsClosed-comment c cs other (inl e) = cc
IsClosed-comment c [] other (inr e) = ground arith
IsClosed-comment c (d ∷ ds) other (inr e) = e

-- What is left of a text of some length.
abbrev pub Leaves : ℕ → Text → Type 0
Leaves n t = IsClosed t × (length t < n)

Leaves-tail : (n c : ℕ) (cs : Text) → Leaves n (c ∷ cs) → Leaves n cs
Leaves-tail n c cs (closed, less) = (IsClosed-tail c cs closed, omega arith)

-- The first byte of a token, and what is behind it.
Starts : ℕ → Option ℕ × Reader → Type 0
Starts n (none, r) = Leaves (suc n) r.rest
Starts n (some c, r) = Leaves n r.rest

not_true : false ≢ true
not_true e = cc

scan-Settles :
    (inside : Bool) (line n : ℕ) (t : Text)
    → Leaves (suc n) t
    → (inside ≡ true → ends_with_newline t ≡ true)
    → Settles (Starts n) (scan inside line t)
unfolding scan Starts ends_with_newline
scan-Settles false line n [] h k = h
scan-Settles true line n [] h k = absurd (not_true (k refl))
scan-Settles false line n (c ∷ cs) h k =
    Settles-test _ (is_space c) _ _
      (λ space. scan-Settles false _ n cs (Leaves-tail (suc n) c cs h) (λ e. cc))
      (λ other.
        Settles-test _ (c == b'#') _ _
          (λ e.
            scan-Settles true line n cs (Leaves-tail (suc n) c cs h)
              (λ i. IsClosed-comment c cs (λ newline. ground arith) h.0))
          (λ e. (IsClosed-tail c cs h.0, omega arith)))
scan-Settles true line n (c ∷ cs) h k =
    Settles-test _ (c == b'\n') _ _
      (λ e. scan-Settles false _ n cs (Leaves-tail (suc n) c cs h) (λ i. cc))
      (λ e.
        scan-Settles true line n cs (Leaves-tail (suc n) c cs h)
          (λ i. IsClosed-comment c cs (λ newline. ground arith) h.0))

-- The rest behind what was read.
Behind : ℕ → Text × Text → Type 0
Behind n s = Leaves n s.1

push-Settles :
    (n c : ℕ) (o : Outcome (Text × Text)) → Settles (Behind n) o → Settles (Behind n) (push c o)
unfolding Behind
push-Settles n c (ok s) h = h
push-Settles n c (thrown what) h = tt
push-Settles n c endless h = h

unescape-Settles :
    (n : ℕ) (o : Outcome (Text × Text)) (u : Option ℕ)
    → Settles (Behind n) o
    → Settles
        (Behind n)
        (elim u [ none ↦ thrown (codes "Unknown escape code") | some d ↦ push d o ])
unescape-Settles n o none h = tt
unescape-Settles n o (some d) h = push-Settles n d o h

read_string-Settles :
    (escaped : Bool) (n : ℕ) (t : Text) → Leaves n t → Settles (Behind n) (read_string escaped t)
unfolding read_string Behind
read_string-Settles false n [] h = h
read_string-Settles true n [] h = tt
read_string-Settles false n (c ∷ cs) h =
    let tail = Leaves-tail n c cs h in
    Settles-test _ (c == b'"') _ _ (λ e. tail)
      (λ e.
        Settles-test _ (c == b'\n') _ _ (λ e. tt)
          (λ e.
            Settles-test _ (c == b'\\') _ _ (λ e. read_string-Settles true n cs tail)
              (λ e. push-Settles n c (read_string false cs) (read_string-Settles false n cs tail))))
read_string-Settles true n (c ∷ cs) h =
    unescape-Settles n (read_string false cs) (unescape c)
      (read_string-Settles false n cs (Leaves-tail n c cs h))

span-Leaves : (test : ℕ → Bool) (n : ℕ) (t : Text) → Leaves n t → Leaves n (span test t).1
unfolding span
span-Leaves test n [] h = h
span-Leaves test n (c ∷ cs) h =
    test_cases (λ (s : Text × Text). Leaves n s.1) (test c) _ _
      (λ e. span-Leaves test n cs (Leaves-tail n c cs h)) (λ e. h)

read_block-Leaves :
    (n : ℕ) (cur : Text) (line : ℕ) (t : Text)
    → Leaves n t
    → Leaves n (read_block cur line t).1.rest
unfolding read_block
read_block-Leaves n cur line [] h = h
read_block-Leaves n cur line (c ∷ cs) h =
    let tail = Leaves-tail n c cs h in
    test_cases (λ (b : Text × Reader). Leaves n b.1.rest) (c == b'\n') _ _
      (λ e.
        test_cases (λ (b : Text × Reader). Leaves n b.1.rest) (is_block_end (cur ++ (c ∷ []))) _ _
          (λ e. tail) (λ e. read_block-Leaves n [] (next_line line) cs tail))
      (λ e. read_block-Leaves n (cur ++ (c ∷ [])) line cs tail)

end_of_line-Settles :
    (n line : ℕ) (t : Text) → Leaves n t → Settles (λ r. Leaves n r.rest) (end_of_line line t)
unfolding end_of_line
end_of_line-Settles n line [] h = tt
end_of_line-Settles n line (c ∷ cs) h =
    let tail = Leaves-tail n c cs h in
    Settles-test _ (c == b'\n') _ _ (λ e. tail)
      (λ e. Settles-test _ (is_space c) _ _ (λ e. end_of_line-Settles n line cs tail) (λ e. tt))

-- A token leaves less of the text, unless the text has ended.
unfoldable pub Lexes : ℕ → Lexeme → Type 0
Lexes n x = Leaves (suc n) x.behind.rest × (x.token ≢ token_eof → length x.behind.rest < n)

Lexes-Leaves : (n : ℕ) (x : Lexeme) → Leaves n x.behind.rest → Lexes n x
unfolding Lexes
Lexes-Leaves n x (closed, less) = ((closed, omega arith), λ e. less)

read_begin-Settles :
    (n line : ℕ) (s : Text × Text) → Leaves n s.1 → Settles (Lexes n) (read_begin s line)
unfolding read_begin
read_begin-Settles n line (name, rest) h =
    Settles-if _ (text_eq name (codes "begin")) _ _
      (λ e.
        Settles-bind (λ r. Leaves n r.rest) _ (end_of_line line rest) _
          (end_of_line-Settles n line rest h)
          (λ r k. Lexes-Leaves n _ (read_block-Leaves n [] r.line r.rest k)))
      (λ e. tt)

other_token-Settles :
    (c n line : ℕ) (t : Text) → Leaves n t → Settles (Lexes n) (other_token c t line)
unfolding other_token Behind
other_token-Settles c n line t h =
    Settles-if _ (c == b'"') _ _
      (λ e.
        Settles-bind (Behind n) _ (read_string false t) _ (read_string-Settles false n t h)
          (λ s k. Lexes-Leaves n _ k))
      (λ e.
        Settles-if _ (is_digit c || c == b'-') _ _
          (λ e. Lexes-Leaves n _ (span-Leaves is_digit n t h))
          (λ e.
            Settles-if _ (c == b'%') _ _
              (λ e.
                read_begin-Settles n line (span is_name_char t) (span-Leaves is_name_char n t h))
              (λ e.
                Settles-if _ (is_alpha c || c == b'_') _ _
                  (λ e. Lexes-Leaves n _ (span-Leaves is_name_char n t h)) (λ e. tt))))

token_from-Settles :
    (n : ℕ) (first : Option ℕ × Reader) → Starts n first → Settles (Lexes n) (token_from first)
unfolding token_from Starts
token_from-Settles n (none, r) h = (unfold Lexes in (h, λ e. absurd (e refl)))
token_from-Settles n (some c, r) h = after_symbol (symbol c)
  where
    after_symbol :
        (s : Option Token)
        → Settles (Lexes n) (elim s [
          | some token ↦ lexeme token [] r.rest r.line
          | none ↦ other_token c r.rest r.line
        ])
    after_symbol (some token) = Lexes-Leaves n _ h
    after_symbol none = other_token-Settles c n r.line r.rest h

pub read_token-Settles :
    (n : ℕ) (r : Reader) → Leaves (suc n) r.rest → Settles (Lexes n) (read_token r)
unfolding read_token
read_token-Settles n r h =
    Settles-bind (Starts n) (Lexes n) (scan false r.line r.rest) token_from
      (scan-Settles false r.line n r.rest h (λ e. cc)) (token_from-Settles n)
