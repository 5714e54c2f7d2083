-- ===== src/Package/Names.antt =====
-- Assignments `name=0x…` on the command line: what is written is read back.
use nexus_move.Prelude.{
  ℕ, ◌/◌, ◌%◌, ◌≡◌, ◌≢◌, refl, ◌∙◌, arith, false, some, [], ◌∷◌, ◌++◌, All, Bytes, ok,
}
use nexus_move.Types.{AccountAddress, display_address, display_bytes, hex_digit}
use nexus_move.Types.RoundTrip.{IsAddress, from_hex_literal-display_address}
use nexus_move.Package.{
  is_space, trim_start, trim_end, trim, split_once, assignment, parse_named_address_assignment,
}

pub split_once_lem :
    (c : ℕ) (s t : Bytes) → All (λ b. b ≢ c) s → split_once c (s ++ c ∷ t) ≡ some (s, t)
unfolding split_once
split_once_lem c [] t a = ground arith
split_once_lem c (b ∷ s) t a = rw (split_once_lem c s t a.1) (ground (arith, a.0))

abbrev pub IsSolid : Bytes → Type 0
IsSolid s = All (λ b. is_space b ≡ false) s

trim_end_solid : (s : Bytes) → IsSolid s → trim_end is_space s ≡ s
unfolding trim_end
trim_end_solid [] a = refl
trim_end_solid (b ∷ s) a = rw (trim_end_solid s a.1) (rw a.0 refl)

trim_start_solid : (s : Bytes) → IsSolid s → trim_start is_space s ≡ s
unfolding trim_start
trim_start_solid [] a = refl
trim_start_solid (b ∷ s) a = rw a.0 refl

pub trim_solid : (s : Bytes) → IsSolid s → trim s ≡ s
unfolding trim
trim_solid s a = rw (trim_start_solid s a) (trim_end_solid s a)

hex_digit_solid : (n : ℕ) → is_space (hex_digit n) ≡ false
unfolding hex_digit
hex_digit_solid n = ground arith

pub display_bytes-IsSolid : (s : Bytes) → IsSolid (display_bytes s)
unfolding display_bytes
display_bytes-IsSolid [] = tt
display_bytes-IsSolid (b ∷ s) =
    (hex_digit_solid (b / 16), (hex_digit_solid (b % 16), display_bytes-IsSolid s))

pub display_address-IsSolid : (a : AccountAddress) → IsSolid (display_address a)
unfolding display_address
display_address-IsSolid a = (refl, (refl, display_bytes-IsSolid a))

parse_parts :
    (input : Bytes) (parts : Bytes × Bytes)
    → split_once b'=' input ≡ some parts
    → parse_named_address_assignment input ≡ assignment parts
unfolding parse_named_address_assignment
parse_parts input parts e = rw (parse_named_address_assignment, e) refl

assignment_lem :
    (name : Bytes) (a : AccountAddress)
    → IsSolid name
    → IsAddress a
    → assignment (name, display_address a) ≡ ok (record { name = name; address = a })
unfolding assignment
assignment_lem name a solid h =
    rw (assignment, trim_solid (display_address a) (display_address-IsSolid a))
      (rw (trim_solid name solid) (rw (from_hex_literal-display_address a h) refl))

-- A name without white space or an equals sign, an equals sign and the text of an address are read
-- as the assignment of the address to the name.
pub parse_named_address_assignment-display_address :
    (name : Bytes) (a : AccountAddress)
    → All (λ b. b ≢ b'=') name
    → IsSolid name
    → IsAddress a
    → parse_named_address_assignment (name ++ b'=' ∷ display_address a)
      ≡ ok (record { name = name; address = a })
parse_named_address_assignment-display_address name a plain solid h =
    parse_parts (name ++ b'=' ∷ display_address a) (name, display_address a)
      (split_once_lem b'=' name (display_address a) plain)
    ∙ assignment_lem name a solid h
