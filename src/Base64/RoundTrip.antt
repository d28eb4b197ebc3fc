-- ===== src/Base64/RoundTrip.antt =====
-- The decoder against the encoding of RFC 4648.
use sourcemud.Base.{
  ℕ, suc, ◌+◌, ◌*◌, ◌/◌, ◌%◌, ◌^◌, ◌<◌, ◌≡◌, refl, ap, ◌∙◌, Bool, true, false, ◌&&◌, not, Option,
  none, some, inl, inr, List, [], ◌∷◌, ◌++◌, arith,
}
use sourcemud.Base.Lists.{All, get_elem?}
use sourcemud.Base.Tables.{table, table-entry}
use sourcemud.Base.Tests.{◌==◌, Bool-cases, Option-cases}
use sourcemud.Base.Text.{Text}
use sourcemud.Strings.Strip.{index_of}
use sourcemud.Base64.{alphabet, byte_at, hanging, decode_from, decode}

-- The character of six bits.
char_of : ℕ → ℕ
unfolding alphabet
char_of i = elim (get_elem? alphabet i) [ none ↦ 0 | some c ↦ c ]

-- RFC 4648: three bytes as four characters, the last group padded.
pub encode : List ℕ → Text
unfolding char_of
encode [] = []
encode (a ∷ []) = char_of (a / 4) ∷ char_of (a % 4 * 16) ∷ b'=' ∷ b'=' ∷ []
encode (a ∷ b ∷ []) =
    char_of (a / 4) ∷ char_of (a % 4 * 16 + b / 16) ∷ char_of (b % 16 * 4) ∷ b'=' ∷ []
encode (a ∷ b ∷ c ∷ rest) =
    char_of (a / 4)
    ∷ char_of (a % 4 * 16 + b / 16)
    ∷ char_of (b % 16 * 4 + c / 64)
    ∷ char_of (c % 64)
    ∷ encode rest

same_index : Option ℕ → ℕ → Bool
same_index none i = false
same_index (some j) i = j == i

same_index-some : (o : Option ℕ) (i : ℕ) → same_index o i ≡ true → o ≡ some i
unfolding same_index
same_index-some none i h = cc
same_index-some (some j) i h = ap some (ground arith)

-- Whether the decoder reads the six bits back.
reads_back : ℕ → Bool
unfolding same_index char_of alphabet index_of
reads_back i = same_index (index_of (char_of i) alphabet) i && not (char_of i == b'=')

all_read_back : table reads_back 64 ≡ true
unfolding table reads_back
all_read_back = refl

char_of_index : (i : ℕ) → i < 64 → index_of (char_of i) alphabet ≡ some i
char_of_index i lt =
    let read : reads_back i ≡ true = table-entry reads_back i all_read_back lt in
    same_index-some (index_of (char_of i) alphabet) i (unfold reads_back in ground arith)

char_of_solid : (i : ℕ) → i < 64 → (char_of i == b'=') ≡ false
char_of_solid i lt =
    let read : reads_back i ≡ true = table-entry reads_back i all_read_back lt in
    unfold reads_back in ground arith

-- A character in front of the fourth.
decode_char :
    (bits count i : ℕ) (cs : Text)
    → (suc count == 4) ≡ false
    → i < 64
    → (bits + i) * 2 ^ 6 < 2 ^ 32
    → decode_from bits count (char_of i ∷ cs) ≡ decode_from ((bits + i) * 2 ^ 6) (suc count) cs
unfolding decode_from
decode_char bits count i cs more lt room =
    let small : (bits + i) % 2 ^ 32 ≡ bits + i = omega arith in
    let shifted : (bits + i) * 2 ^ 6 % 2 ^ 32 ≡ (bits + i) * 2 ^ 6 = omega arith in
    rw (char_of_solid i lt, char_of_index i lt, small, more, shifted, decode_from) refl

-- The fourth character.
decode_last :
    (bits i : ℕ) (cs : Text)
    → i < 64
    → bits + i < 2 ^ 32
    → decode_from bits 3 (char_of i ∷ cs)
      ≡ byte_at 16 (bits + i) ∷ byte_at 8 (bits + i) ∷ byte_at 0 (bits + i) ∷ decode_from 0 0 cs
unfolding decode_from
decode_last bits i cs lt room =
    let small : (bits + i) % 2 ^ 32 ≡ bits + i = omega arith in
    rw (char_of_solid i lt, char_of_index i lt, small, decode_from) refl

-- Padding behind two or three characters.
decode_pad : (bits count : ℕ) (cs : Text) → decode_from bits count (b'=' ∷ cs) ≡ hanging bits count
unfolding decode_from
decode_pad bits count cs = refl

two_chars :
    (i j : ℕ) (cs : Text)
    → i < 64
    → j < 64
    → decode_from 0 0 (char_of i ∷ char_of j ∷ cs) ≡ decode_from ((i * 2 ^ 6 + j) * 2 ^ 6) 2 cs
two_chars i j cs lt lt' =
    decode_char 0 0 i (char_of j ∷ cs) refl lt (omega arith)
    ∙ decode_char ((0 + i) * 2 ^ 6) 1 j cs refl lt' (omega arith)
    ∙ ap (λ s. decode_from s 2 cs) (omega arith)

three_chars :
    (i j k : ℕ) (cs : Text)
    → i < 64
    → j < 64
    → k < 64
    → decode_from 0 0 (char_of i ∷ char_of j ∷ char_of k ∷ cs)
      ≡ decode_from (((i * 2 ^ 6 + j) * 2 ^ 6 + k) * 2 ^ 6) 3 cs
three_chars i j k cs lt lt' lt'' =
    two_chars i j (char_of k ∷ cs) lt lt'
    ∙ decode_char ((i * 2 ^ 6 + j) * 2 ^ 6) 2 k cs refl lt'' (omega arith)

-- Three bytes of a group.
group_bytes :
    (a b c : ℕ)
    → a < 256
    → b < 256
    → c < 256
    → (((a / 4) * 2 ^ 6 + (a % 4 * 16 + b / 16)) * 2 ^ 6 + (b % 16 * 4 + c / 64)) * 2 ^ 6 + c % 64
      ≡ a * 65536 + b * 256 + c
group_bytes a b c la lb lc = omega arith

bytes_of :
    (a b c s : ℕ)
    → a < 256
    → b < 256
    → c < 256
    → s ≡ a * 65536 + b * 256 + c
    → (byte_at 16 s ≡ a) × (byte_at 8 s ≡ b) × (byte_at 0 s ≡ c)
bytes_of a b c s la lb lc e = (omega arith, omega arith, omega arith)

two_bytes :
    (a b : ℕ)
    → a < 256
    → b < 256
    → hanging (((a / 4 * 2 ^ 6 + (a % 4 * 16 + b / 16)) * 2 ^ 6 + b % 16 * 4) * 2 ^ 6) 3
      ≡ a ∷ b ∷ []
two_bytes a b la lb =
    let (high, middle, low) =
      bytes_of a b 0 (((a / 4 * 2 ^ 6 + (a % 4 * 16 + b / 16)) * 2 ^ 6 + b % 16 * 4) * 2 ^ 6) la lb
        (omega arith) (omega arith) in
    rw (high, middle) refl

-- What was encoded is decoded again.
pub decode-encode : (bytes : List ℕ) → All (λ x. x < 256) bytes → decode (encode bytes) ≡ bytes
unfolding decode encode
decode-encode [] h = unfold decode_from in refl
decode-encode (a ∷ []) h =
    let (la, nil) = h in
    two_chars (a / 4) (a % 4 * 16) (b'=' ∷ b'=' ∷ []) (omega arith) (omega arith)
    ∙ decode_pad ((a / 4 * 2 ^ 6 + a % 4 * 16) * 2 ^ 6) 2 (b'=' ∷ [])
    ∙ ap (λ x. x ∷ []) (omega arith)
decode-encode (a ∷ b ∷ []) h =
    let (la, (lb, nil)) = h in
    three_chars (a / 4) (a % 4 * 16 + b / 16) (b % 16 * 4) (b'=' ∷ []) (omega arith) (omega arith)
      (omega arith)
    ∙ decode_pad (((a / 4 * 2 ^ 6 + (a % 4 * 16 + b / 16)) * 2 ^ 6 + b % 16 * 4) * 2 ^ 6) 3 []
    ∙ two_bytes a b la lb
decode-encode (a ∷ b ∷ c ∷ rest) h =
    let (la, (lb, (lc, all))) = h in
    three_chars (a / 4) (a % 4 * 16 + b / 16) (b % 16 * 4 + c / 64) (char_of (c % 64) ∷ encode rest)
      (omega arith) (omega arith) (omega arith)
    ∙ decode_last
        (((a / 4 * 2 ^ 6 + (a % 4 * 16 + b / 16)) * 2 ^ 6 + (b % 16 * 4 + c / 64)) * 2 ^ 6) (c % 64)
        (encode rest) (omega arith) (omega arith)
    ∙ (let (high, middle, low) =
          bytes_of a b c
            (((a / 4 * 2 ^ 6 + (a % 4 * 16 + b / 16)) * 2 ^ 6 + (b % 16 * 4 + c / 64)) * 2 ^ 6
              + c % 64)
            la lb lc (group_bytes a b c la lb lc) in
        rw (high, middle, low) (ap (λ l. a ∷ b ∷ c ∷ l) (decode-encode rest all)))

skip_from :
    (bits count c : ℕ) (xs ys : Text)
    → index_of c alphabet ≡ none
    → (c == b'=') ≡ false
    → decode_from bits count (xs ++ (c ∷ ys)) ≡ decode_from bits count (xs ++ ys)
unfolding decode_from
skip_from bits count c [] ys out no_pad = rw (no_pad, out, decode_from) refl
skip_from bits count c (x ∷ xs) ys out no_pad = elim (Bool-cases (x == b'=')) [
  | inl pad ↦ rw (pad, decode_from) refl
  | inr solid ↦ elim (Option-cases (index_of x alphabet)) [
    | inl unknown ↦ rw (solid, unknown, decode_from) (skip_from bits count c xs ys out no_pad)
    | inr (pos, known) ↦ elim (Bool-cases (suc count == 4)) [
      | inl last ↦
          rw (solid, known, last, decode_from)
            (ap
              (λ l.
                byte_at 16 ((bits + pos) % 2 ^ 32)
                ∷ byte_at 8 ((bits + pos) % 2 ^ 32)
                ∷ byte_at 0 ((bits + pos) % 2 ^ 32)
                ∷ l)
              (skip_from 0 0 c xs ys out no_pad))
      | inr more ↦
          rw (solid, known, more, decode_from)
            (skip_from ((bits + pos) % 2 ^ 32 * 2 ^ 6 % 2 ^ 32) (suc count) c xs ys out no_pad)
    ]
  ]
]

-- A character that is neither of the alphabet nor padding makes no difference, wherever it stands.
pub decode_skip :
    (c : ℕ) (xs ys : Text)
    → index_of c alphabet ≡ none
    → (c == b'=') ≡ false
    → decode (xs ++ (c ∷ ys)) ≡ decode (xs ++ ys)
unfolding decode
decode_skip c xs ys out no_pad = skip_from 0 0 c xs ys out no_pad
