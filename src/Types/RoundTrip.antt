-- ===== src/Types/RoundTrip.antt =====
-- Printing an address and parsing it again.
use nexus_move.Prelude.{
  ℕ, ◌+◌, ◌*◌, ◌/◌, ◌%◌, ◌≡◌, refl, [], ◌∷◌, arith, length, ap, ◌∙◌, false, is_empty, Bytes,
  AreBytes, ok,
}
use nexus_move.Types.{
  AccountAddress, decode_hex, decode_hex_from, from_decoded, from_hex, from_hex_literal,
  display_bytes, display_address,
}
use nexus_move.Types.Digits.{decode_nibble-hex_digit}

-- What `[u8; 32]` says of an address.
pub record IsAddress (a : AccountAddress) : Type 0 where
  pub size : length a ≡ 32
  pub bytes : AreBytes a

length-display_bytes : (bs : Bytes) → length (display_bytes bs) ≡ 2 * length bs
unfolding display_bytes
length-display_bytes [] = refl
length-display_bytes (b ∷ bs) = omega (arith, length-display_bytes bs)

decode_hex_from-display_bytes :
    (index : ℕ) (bs : Bytes) → AreBytes bs → decode_hex_from index (display_bytes bs) ≡ ok bs
unfolding decode_hex_from display_bytes
decode_hex_from-display_bytes index [] h = refl
decode_hex_from-display_bytes index (b ∷ bs) h =
    rw
      (
        decode_nibble-hex_digit (b / 16) index (omega arith),
        decode_nibble-hex_digit (b % 16) (index + 1) (omega arith),
        decode_hex_from-display_bytes (index + 2) bs h.1,
      )
      (ap (λ n. ok (n ∷ bs)) (omega arith))

pub from_hex_even :
    (s : Bytes) {d : Bytes}
    → is_empty s ≡ false
    → length s % 2 ≡ 0
    → decode_hex s ≡ ok d
    → from_hex s ≡ from_decoded d
unfolding from_hex
from_hex_even s ne even h = ground arith

from_decoded_full : (a : AccountAddress) → length a ≡ 32 → from_decoded a ≡ ok a
unfolding from_decoded
from_decoded_full a h = rw h

nonempty : (a : Bytes) → length a ≡ 32 → is_empty (display_bytes a) ≡ false
unfolding display_bytes
nonempty [] h = absurd (omega arith)
nonempty (b ∷ a) h = refl

-- Parsing the printed form of an address, 32 bytes, gives the address back.
pub from_hex_literal-display_address :
    (a : AccountAddress) → IsAddress a → from_hex_literal (display_address a) ≡ ok a
unfolding from_hex_literal display_address decode_hex
from_hex_literal-display_address a h =
    from_hex_even (display_bytes a) (nonempty a h.size)
      (omega (arith, length-display_bytes a, h.size)) (decode_hex_from-display_bytes 0 a h.bytes)
    ∙ from_decoded_full a h.size
