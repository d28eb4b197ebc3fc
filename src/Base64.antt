-- ===== src/Base64.antt =====
-- `Base64::decode` of src/common/base64.cc. A `uint32_t` holds 32 bits.
pub mod RoundTrip
pub mod Examples
use sourcemud.Base.{ℕ, suc, ◌+◌, ◌*◌, ◌/◌, ◌%◌, ◌^◌, none, some, [], ◌∷◌}
use sourcemud.Base.Tests.{◌==◌, if◌then◌else◌}
use sourcemud.Base.Text.{Text, codes}
use sourcemud.Strings.Strip.{index_of}

unfoldable pub alphabet : Text
alphabet = codes "ABCDEFGHIJKLMNOPQRSTUVWXYZabcdefghijklmnopqrstuvwxyz0123456789+/"

-- The byte that begins at a bit.
abbrev pub byte_at : ℕ → ℕ → ℕ
byte_at shift bits = bits / 2 ^ shift % 2 ^ 8

-- The bits left at the end of the text.
abbrev pub hanging : ℕ → ℕ → Text
hanging bits count =
    if count == 3
    then byte_at 16 bits ∷ byte_at 8 bits ∷ []
    else if count == 2
    then byte_at 10 bits ∷ []
    else []

-- The loop from a state on: the bits so far, and how many characters they come from.
unfoldable pub decode_from : ℕ → ℕ → Text → Text
decode_from bits count [] = hanging bits count
decode_from bits count (c ∷ cs) =
    if c == b'=' then hanging bits count else elim (index_of c alphabet) [
      | none ↦ decode_from bits count cs
      | some pos ↦
          let sum = (bits + pos) % 2 ^ 32 in
          if suc count == 4
          then byte_at 16 sum ∷ byte_at 8 sum ∷ byte_at 0 sum ∷ decode_from 0 0 cs
          else decode_from (sum * 2 ^ 6 % 2 ^ 32) (suc count) cs
    ]

pub decode : Text → Text
unfolding decode_from
decode str = decode_from 0 0 str
