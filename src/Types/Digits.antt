-- ===== src/Types/Digits.antt =====
-- Hexadecimal digits, described apart from the parser, and what `decode_nibble` makes of them.
use nexus_move.Prelude.{
  ℕ, ◌-◌, ◌≤◌, ◌<◌, ◌≡◌, ◌⊎◌, arith, inl, inr, ◌&&◌, Bool-cases, if◌then◌else◌, leb, ok, err,
}
use nexus_move.Types.{invalid_hex, decode_nibble, hex_digit}

abbrev pub IsHexDigit : ℕ → Type 0
IsHexDigit b = ((b'0' ≤ b) × (b ≤ b'9')) ⊎ (((b'a' ≤ b) × (b ≤ b'f')) ⊎ ((b'A' ≤ b) × (b ≤ b'F')))

-- The number that a hexadecimal digit stands for.
abbrev pub digit_value : ℕ → ℕ
digit_value b = if leb b b'9' then b - 48 else if leb b'a' b then b - 87 else b - 55

pub decode_nibble-hex_digit : (n index : ℕ) → n < 16 → decode_nibble (hex_digit n) index ≡ ok n
unfolding decode_nibble hex_digit
decode_nibble-hex_digit n index h = ground arith

pub decode_nibble_ok : (b index : ℕ) → IsHexDigit b → decode_nibble b index ≡ ok (digit_value b)
unfolding decode_nibble
decode_nibble_ok b index h = ground arith

pub IsHexDigit-cases : (b : ℕ) → IsHexDigit b ⊎ (¬ IsHexDigit b)
IsHexDigit-cases b = elim (Bool-cases (leb b'0' b && leb b b'9')) [
  | inl h ↦ inl (inl (ground arith, ground arith))
  | inr h ↦ elim (Bool-cases (leb b'a' b && leb b b'f')) [
    | inl k ↦ inl (inr (inl (ground arith, ground arith)))
    | inr k ↦ elim (Bool-cases (leb b'A' b && leb b b'F')) [
      | inl l ↦ inl (inr (inr (ground arith, ground arith)))
      | inr l ↦ inr (λ d. ground arith)
    ]
  ]
]

pub decode_nibble_err :
    (b index : ℕ) → ¬ IsHexDigit b → decode_nibble b index ≡ err (invalid_hex index b)
unfolding decode_nibble
decode_nibble_err b index h = ground arith

pub digit_value-lt : (b : ℕ) → IsHexDigit b → digit_value b < 16
digit_value-lt b h = ground arith
