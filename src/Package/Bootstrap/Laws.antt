-- ===== src/Package/Bootstrap/Laws.antt =====
-- The command line of the bootstrap backend, and the compiler's address mapping, are read back.
use mathlib.Core.List.{append_assoc}
use nexus_move.Prelude.{
  ℕ, ◌/◌, ◌%◌, ◌≡◌, ◌≢◌, refl, sym, ap, ◌∙◌, arith, List, [], ◌∷◌, ◌++◌, map, All, Bytes, ascii, ok,
  ◌==◌, if◌then◌else◌,
}
use nexus_move.Types.{hex_digit, display_bytes, display_address}
use nexus_move.Types.RoundTrip.{IsAddress}
use nexus_move.Package.{NamedAddressAssignment, BuildOptions, parse_named_address_assignments}
use nexus_move.Package.Merge.{Assignments}
use nexus_move.Package.Names.{IsSolid, parse_named_address_assignment-display_address}
use nexus_move.Package.Bootstrap.{
  assignment_text, join_commas, csv_of, skip_args, address_args, build_command,
}

-- A name that can be written in an assignment, with its address.
pub record IsWritable (e : NamedAddressAssignment) : Type 0 where
  pub plain : All (λ b. b ≢ b'=') e.name
  pub solid : IsSolid e.name
  pub no_comma : All (λ b. b ≢ b',') e.name
  pub address : IsAddress e.address

-- The texts of the assignments are read as the assignments.
pub parse_texts :
    (entries : Assignments)
    → All IsWritable entries
    → parse_named_address_assignments (map assignment_text entries) ≡ ok entries
unfolding parse_named_address_assignments
parse_texts [] w = refl
parse_texts (e ∷ entries) w =
    rw
      (parse_named_address_assignment-display_address e.name e.address w.0.plain w.0.solid
        w.0.address)
      (rw (parse_texts entries w.1) refl)

-- The first part of a text and the other parts, parted at the commas.
split_parts : Bytes → Bytes × List Bytes
split_parts [] = ([], [])
split_parts (b ∷ s) = let r = split_parts s in if b == b',' then ([], r.0 ∷ r.1) else (b ∷ r.0, r.1)

-- The parts of a text between its commas.
unfoldable pub split_commas : Bytes → List Bytes
unfolding split_parts
split_commas s = (split_parts s).0 ∷ (split_parts s).1

abbrev HasNoComma : Bytes → Type 0
HasNoComma s = All (λ b. b ≢ b',') s

split_last : (s : Bytes) → HasNoComma s → split_parts s ≡ (s, [])
unfolding split_parts
split_last [] h = refl
split_last (b ∷ s) h = rw (split_last s h.1) (ground (arith, h.0))

split_comma : (s t : Bytes) → HasNoComma s → split_parts (s ++ b',' ∷ t) ≡ (s, split_commas t)
unfolding split_parts split_commas
split_comma [] t h = refl
split_comma (b ∷ s) t h = rw (split_comma s t h.1) (ground (arith, h.0))

split_commas-join_commas :
    (s : Bytes) (rest : List Bytes)
    → All HasNoComma (s ∷ rest)
    → split_commas (join_commas (s ∷ rest)) ≡ s ∷ rest
unfolding join_commas split_commas
split_commas-join_commas s [] h = rw (split_last s h.0) refl
split_commas-join_commas s (t ∷ rest) h =
    rw (split_comma s (join_commas (t ∷ rest)) h.0)
      (ap (λ (parts : List Bytes). s ∷ parts) (split_commas-join_commas t rest h.1))

no_comma-append : (s t : Bytes) → HasNoComma s → HasNoComma t → HasNoComma (s ++ t)
no_comma-append [] t h k = k
no_comma-append (b ∷ s) t h k = (h.0, no_comma-append s t h.1 k)

hex_digit_ne : (n : ℕ) → hex_digit n ≢ b','
unfolding hex_digit
hex_digit_ne n e = ground arith

display_bytes_no_comma : (s : Bytes) → HasNoComma (display_bytes s)
unfolding display_bytes
display_bytes_no_comma [] = tt
display_bytes_no_comma (b ∷ s) =
    (hex_digit_ne (b / 16), (hex_digit_ne (b % 16), display_bytes_no_comma s))

assignment_text_no_comma :
    (e : NamedAddressAssignment) → IsWritable e → HasNoComma (assignment_text e)
unfolding display_address
assignment_text_no_comma e w =
    no_comma-append e.name (b'=' ∷ display_address e.address) w.no_comma
      (omega arith, (omega arith, (omega arith, display_bytes_no_comma e.address)))

texts_no_comma :
    (entries : Assignments) → All IsWritable entries → All HasNoComma (map assignment_text entries)
texts_no_comma [] w = tt
texts_no_comma (e ∷ entries) w = (assignment_text_no_comma e w.0, texts_no_comma entries w.1)

csv_read :
    (e : NamedAddressAssignment) (entries : Assignments)
    → All IsWritable (e ∷ entries)
    → parse_named_address_assignments (split_commas (csv_of (e ∷ entries))) ≡ ok (e ∷ entries)
csv_read e entries w =
    ap parse_named_address_assignments (
      split_commas-join_commas (assignment_text e) (map assignment_text entries)
        (texts_no_comma (e ∷ entries) w))
    ∙ parse_texts (e ∷ entries) w

-- The command of a build with named addresses ends in `--named-addresses` and a text whose parts
-- between commas are read as the named addresses, where their names can be written.
pub build_command_read :
    (manifest_path : Bytes) (options : BuildOptions)
    → options.named_addresses ≢ []
    → All IsWritable options.named_addresses
    → (front : List Bytes) × (csv : Bytes) × ((build_command manifest_path options).args
        ≡ front ++ (ascii "--named-addresses" ∷ csv ∷ []))
      × (parse_named_address_assignments (split_commas csv) ≡ ok options.named_addresses)
unfolding build_command
build_command_read manifest_path options some_address w =
    read_from options.named_addresses some_address w
  where
    front : List Bytes
    front =
        ascii "run"
        ∷ ascii "--manifest-path"
        ∷ manifest_path
        ∷ ascii "--bin"
        ∷ ascii "nexus-wallet"
        ∷ ascii "--"
        ∷ ascii "move"
        ∷ ascii "build"
        ∷ ascii "--package-dir"
        ∷ options.package_dir
        ∷ []

    skip : List Bytes
    skip = skip_args options.skip_fetch_latest_git_deps

    read_from :
        (entries : Assignments)
        → entries ≢ []
        → All IsWritable entries
        → (before : List Bytes) × (csv : Bytes) × ((front ++ (skip ++ address_args entries))
            ≡ before ++ (ascii "--named-addresses" ∷ csv ∷ []))
          × (parse_named_address_assignments (split_commas csv) ≡ ok entries)
    read_from [] ne v = absurd (ne refl)
    read_from (e ∷ entries) ne v =
        (front ++ skip, csv_of (e ∷ entries), sym (append_assoc front skip _), csv_read e entries v)
