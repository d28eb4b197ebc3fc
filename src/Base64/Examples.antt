-- ===== src/Base64/Examples.antt =====
-- Runs of the decoder.
use sourcemud.Base.{◌≡◌, refl, arith}
use sourcemud.Base.Text.{codes}
use sourcemud.Strings.Strip.{index_of}
use sourcemud.Base64.{alphabet, decode_from, decode}
use sourcemud.Base64.RoundTrip.{encode, decode-encode}

decode-encode_example : decode (encode (codes "MUD server")) ≡ codes "MUD server"
decode-encode_example = decode-encode (codes "MUD server") (omega arith)

-- The text of RFC 4648's own table.
decode_foobar : decode (codes "Zm9vYmE=") ≡ codes "fooba"
unfolding decode decode_from alphabet index_of
decode_foobar = refl
