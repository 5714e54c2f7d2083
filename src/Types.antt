-- ===== src/Types.antt =====
-- crates/nexus-move-types/src/lib.rs: addresses, hashes, and the parser of hexadecimal addresses.
pub mod Digits
pub mod RoundTrip
pub mod Value
pub mod Errors
mod Tests
use nexus_move.Prelude.{
  ℕ, zero, suc, ◌+◌, ◌-◌, ◌*◌, ◌%◌, ◌/◌, Bool, true, false, ◌&&◌, List, [], ◌∷◌, ◌++◌, leb, ltb,
  ◌==◌, if◌then◌else◌, length, is_empty, replicate, Bytes, Result, ok, err, panic, ◌>>=◌,
}

-- `[u8; 32]`
abbrev pub HashValue : Type 0
HashValue = Bytes

-- `struct AccountAddress(pub [u8; 32])`
abbrev pub AccountAddress : Type 0
AccountAddress = Bytes

pub data AddressParseError : Type 0 where
  empty : AddressParseError
  invalid_hex : ℕ → ℕ → AddressParseError
  too_long : ℕ → AddressParseError

abbrev pub Parse : Type 0 → Type 0
Parse A = Result AddressParseError A

-- `AccountAddress::ZERO`
abbrev pub zero_address : AccountAddress
zero_address = replicate 32 0

unfoldable pub decode_nibble : ℕ → ℕ → Parse ℕ
decode_nibble byte index =
    if leb b'0' byte && leb byte b'9'
    then ok (byte - b'0')
    else if leb b'a' byte && leb byte b'f'
    then ok (byte - b'a' + 10)
    else if leb b'A' byte && leb byte b'F'
    then ok (byte - b'A' + 10)
    else err (invalid_hex index byte)

-- The loop of `decode_hex`, at `index`, on the bytes that are left. With one byte left the source
-- indexes past the end, after the first `?`. `hi << 4 | lo` joins two nibbles.
unfoldable pub decode_hex_from : ℕ → Bytes → Parse Bytes
decode_hex_from index [] = ok []
decode_hex_from index (b ∷ []) = decode_nibble b index >>= λ hi. panic
decode_hex_from index (b ∷ c ∷ rest) =
    let decode_rest = decode_hex_from (index + 2) rest in
    decode_nibble b index >>= λ hi.
    decode_nibble c (index + 1) >>= λ lo. decode_rest >>= λ decoded. ok ((hi * 16 + lo) ∷ decoded)

unfoldable pub decode_hex : Bytes → Parse Bytes
decode_hex input = decode_hex_from 0 input

-- The copy into the last bytes of a zeroed array.
unfoldable pub from_decoded : Bytes → Parse AccountAddress
from_decoded decoded =
    if ltb 32 (length decoded)
    then err (too_long (length decoded))
    else ok (replicate (32 - length decoded) 0 ++ decoded)

unfoldable pub from_hex : Bytes → Parse AccountAddress
unfolding decode_hex from_decoded
from_hex input = if is_empty input then err empty else do
  decoded ← decode_hex (if length input % 2 == 0 then input else b'0' ∷ input)
  from_decoded decoded

-- `strip_prefix("0x")`, else `strip_prefix("0X")`, else the input
unfoldable pub strip_hex_prefix : Bytes → Bytes
strip_hex_prefix (a ∷ b ∷ rest) =
    if a == b'0' && (b == b'x')
    then rest
    else if a == b'0' && (b == b'X')
    then rest
    else a ∷ b ∷ rest
strip_hex_prefix input = input

unfoldable pub from_hex_literal : Bytes → Parse AccountAddress
unfolding strip_hex_prefix from_hex
from_hex_literal input = from_hex (strip_hex_prefix input)

-- `{byte:02x}`
unfoldable pub hex_digit : ℕ → ℕ
hex_digit n = if ltb n 10 then b'0' + n else b'a' + (n - 10)

unfoldable pub display_bytes : Bytes → Bytes
unfolding hex_digit
display_bytes [] = []
display_bytes (b ∷ bs) = hex_digit (b / 16) ∷ hex_digit (b % 16) ∷ display_bytes bs

-- `impl Display for AccountAddress`
unfoldable pub display_address : AccountAddress → Bytes
unfolding display_bytes
display_address address = b'0' ∷ b'x' ∷ display_bytes address
