-- ===== src/Types/Tests.antt =====
-- The address parser on concrete texts.
use nexus_move.Prelude.{◌≡◌, refl, [], ◌∷◌, ◌++◌, replicate, arith, ascii, ok, err}
use nexus_move.Types.{
  AccountAddress, from_hex, from_hex_literal, display_address, invalid_hex, too_long, decode_hex,
  decode_hex_from, decode_nibble, from_decoded,
}
use nexus_move.Types.RoundTrip.{from_hex_literal-display_address}
use nexus_move.Types.Errors.{Describes, from_hex-Describes, from_hex_total}

abbrev cafe : AccountAddress
cafe = replicate 30 0 ++ 0xca ∷ 0xfe ∷ []

parses_short_hex_literal : from_hex_literal (ascii "0xCAFE") ≡ ok cafe
unfolding from_hex_literal decode_hex decode_hex_from decode_nibble from_decoded
parses_short_hex_literal = refl

parses_cafe : from_hex (ascii "cafe") ≡ ok cafe
unfolding from_hex decode_hex decode_hex_from decode_nibble from_decoded
parses_cafe = refl

rejects_too_long_address : from_hex_literal (ascii "0x" ++ replicate 66 b'1') ≡ err (too_long 33)
unfolding from_hex_literal decode_hex decode_hex_from decode_nibble from_decoded
rejects_too_long_address = refl

rejects_bad_digit : from_hex (ascii "12g4") ≡ err (invalid_hex 2 b'g')
unfolding from_hex decode_hex decode_hex_from decode_nibble from_decoded
rejects_bad_digit = refl

-- The reported position is that in the padded text.
position_is_shifted : from_hex (ascii "g12") ≡ err (invalid_hex 1 b'g')
unfolding from_hex decode_hex decode_hex_from decode_nibble from_decoded
position_is_shifted = refl

from_hex_literal-display_address_example : from_hex_literal (display_address cafe) ≡ ok cafe
from_hex_literal-display_address_example =
    from_hex_literal-display_address cafe (record { size = refl; bytes = omega arith })

from_hex-Describes_example : Describes (ascii "g12") (from_hex (ascii "g12"))
from_hex-Describes_example = from_hex-Describes (ascii "g12")

from_hex_total_example : (a : AccountAddress) × (from_hex (ascii "cafe") ≡ ok a)
from_hex_total_example = from_hex_total (ascii "cafe") (omega arith) (λ x. cc) (omega arith)
