-- ===== src/Package/Toml/Reading.antt =====
-- The reader on a printed manifest: lines, sections, entries.
use nexus_move.Prelude.{
  ℕ, ◌/◌, ◌%◌, ◌<◌, ◌≡◌, ◌≢◌, refl, sym, ap, ◌∙◌, arith, true, false, Option, none, some, List, [],
  ◌∷◌, ◌++◌, ◌==◌, is_empty, All, Bytes, bytes_eq, ascii,
}
use nexus_move.Types.{AccountAddress, display_address, display_bytes, hex_digit}
use nexus_move.Types.RoundTrip.{IsAddress, from_hex_literal-display_address}
use nexus_move.Package.{NamedAddressAssignment, immutable, trim, trim_quotes, split_once}
use nexus_move.Package.Toml.{
  lines, push_named_address, push_parsed, Reader, start, read_entry, is_header, content,
  read_content, read_lines, finish, inspect_move_toml,
}
use nexus_move.Package.Toml.Printing.{
  IsPlain, IsValue, is_quotable, print_entry, lines-line, entry_one_line, entry_parts, trim_value,
  trim_key, unquote, content_entry,
}

read_parts :
    (line : Bytes) (parts : Bytes × Bytes) (r : Reader)
    → is_empty line ≡ false
    → is_header line ≡ false
    → split_once b'=' line ≡ some parts
    → read_content line r ≡ read_entry (trim parts.0) (trim_quotes (trim parts.1)) r
unfolding read_content
read_parts line parts r a b e = rw a (rw b (rw (read_content, e) refl))

entry_nonempty : (key value : Bytes) → IsPlain key → is_empty (print_entry key value) ≡ false
entry_nonempty [] value plain = absurd (plain.0 refl)
entry_nonempty (b ∷ key) value plain = refl

entry_no_header : (key value : Bytes) → IsPlain key → is_header (print_entry key value) ≡ false
entry_no_header [] value plain = absurd (plain.0 refl)
entry_no_header (b ∷ key) value plain =
    let other : (b == b'[') ≡ false = ground (arith, plain.1.0) in rw other refl

read_content_entry :
    (key value : Bytes) (r : Reader)
    → IsPlain key
    → IsValue value
    → read_content (content (print_entry key value)) r ≡ read_entry key value r
read_content_entry key value r plain quotable =
    ap (λ l. read_content l r) (content_entry key value plain quotable)
    ∙ read_parts (print_entry key value) _ r (entry_nonempty key value plain)
        (entry_no_header key value plain) (entry_parts key value plain quotable)
    ∙ ap (λ k. read_entry k (trim_quotes (trim (b' ' ∷ b'"' ∷ (value ++ b'"' ∷ [])))) r)
        (trim_key key plain)
    ∙ ap (λ v. read_entry key v r)
        (ap trim_quotes (trim_value key value plain quotable) ∙ unquote value quotable)

read_line_entry :
    (key value rest : Bytes) (r : Reader)
    → IsPlain key
    → IsValue value
    → read_lines (lines (print_entry key value ++ b'\n' ∷ rest)) r
      ≡ read_lines (lines rest) (read_entry key value r)
unfolding read_lines
read_line_entry key value rest r plain quotable =
    ap (λ ls. read_lines ls r)
      (lines-line (print_entry key value) rest (entry_one_line key value plain quotable))
    ∙ ap (read_lines (lines rest)) (read_content_entry key value r plain quotable)

hex_digit_quotable : (n : ℕ) → n < 16 → is_quotable (hex_digit n) ≡ true
unfolding hex_digit
hex_digit_quotable n h = ground arith

display_bytes_quotable :
    (s : Bytes) → All (λ b. b < 256) s → All (λ b. is_quotable b ≡ true) (display_bytes s)
unfolding display_bytes
display_bytes_quotable [] a = tt
display_bytes_quotable (b ∷ s) a = (
  hex_digit_quotable (b / 16) (omega (arith, a.0)),
  (hex_digit_quotable (b % 16) (omega arith), display_bytes_quotable s a.1),
)

display_address-IsValue : (a : AccountAddress) → IsAddress a → IsValue (display_address a)
unfolding display_address
display_address-IsValue a h = ((λ e. cc), (refl, (refl, display_bytes_quotable a h.bytes)))

-- The lines of the section `[addresses]`.
abbrev pub print_addresses : List NamedAddressAssignment → Bytes
print_addresses [] = []
print_addresses (e ∷ entries) =
    print_entry e.name (display_address e.address) ++ b'\n' ∷ print_addresses entries

-- A manifest with a package name and named addresses.
abbrev pub print_manifest : Bytes → List NamedAddressAssignment → Bytes
print_manifest name entries =
    ascii "[package]\n"
    ++ (print_entry (ascii "name") name
        ++ b'\n' ∷ (ascii "[addresses]\n" ++ print_addresses entries))

abbrev pub IsEntry : NamedAddressAssignment → Type 0
IsEntry e = IsPlain e.name × IsAddress e.address

-- The reader in the section `[addresses]`.
abbrev in_addresses : Bytes → List NamedAddressAssignment → Reader
in_addresses name addresses = record {
  current_section = ascii "addresses";
  package_name = some name;
  package_policy = immutable;
  addresses = addresses;
  dev_addresses = [];
}

no_placeholder : (a : AccountAddress) → bytes_eq (display_address a) (b'_' ∷ []) ≡ false
unfolding display_address
no_placeholder a = refl

push_address :
    (key : Bytes) (a : AccountAddress) (addresses : List NamedAddressAssignment)
    → IsAddress a
    → push_named_address key (display_address a) addresses
      ≡ addresses ++ record { name = key; address = a } ∷ []
unfolding push_named_address
push_address key a addresses h =
    let parsed = ap (λ p. push_parsed key p addresses) (from_hex_literal-display_address a h) in
    rw (no_placeholder a) parsed

read_address :
    (name key : Bytes) (a : AccountAddress) (addresses : List NamedAddressAssignment)
    → IsAddress a
    → read_entry key (display_address a) (in_addresses name addresses)
      ≡ in_addresses name (addresses ++ record { name = key; address = a } ∷ [])
unfolding read_entry
read_address name key a addresses h = ap (in_addresses name) (push_address key a addresses h)

append_assoc : (xs ys zs : List NamedAddressAssignment) → (xs ++ ys) ++ zs ≡ xs ++ (ys ++ zs)
append_assoc [] ys zs = refl
append_assoc (x ∷ xs) ys zs = ap (λ s. x ∷ s) (append_assoc xs ys zs)

append_nil : (xs : List NamedAddressAssignment) → xs ++ [] ≡ xs
append_nil [] = refl
append_nil (x ∷ xs) = ap (λ s. x ∷ s) (append_nil xs)

read_addresses :
    (name : Bytes) (entries addresses : List NamedAddressAssignment)
    → All IsEntry entries
    → read_lines (lines (print_addresses entries)) (in_addresses name addresses)
      ≡ in_addresses name (addresses ++ entries)
unfolding lines read_lines
read_addresses name [] addresses h = ap (in_addresses name) (sym (append_nil addresses))
read_addresses name (e ∷ entries) addresses h =
    read_line_entry e.name (display_address e.address) (print_addresses entries) _ h.0.0
      (display_address-IsValue e.address h.0.1)
    ∙ ap (read_lines (lines (print_addresses entries)))
        (read_address name e.name e.address addresses h.0.1)
    ∙ read_addresses name entries (addresses ++ e ∷ []) h.1
    ∙ ap (in_addresses name) (append_assoc addresses (e ∷ []) entries)

-- The reader in the section `[package]`, with the name read or not.
abbrev in_package : Option Bytes → Reader
in_package package_name = record start {
  current_section = ascii "package";
  package_name = package_name;
}

enter_package : read_content (content (ascii "[package]")) start ≡ in_package none
unfolding read_content content
enter_package = refl

read_name :
    (name : Bytes) → read_entry (ascii "name") name (in_package none) ≡ in_package (some name)
unfolding read_entry
read_name name = refl

enter_addresses :
    (name : Bytes)
    → read_content (content (ascii "[addresses]")) (in_package (some name)) ≡ in_addresses name []
unfolding read_content content
enter_addresses name = refl

-- A line is read on its own.
read_line :
    (line rest : Bytes) (r : Reader)
    → All (λ b. b ≢ b'\n') line
    → read_lines (lines (line ++ b'\n' ∷ rest)) r
      ≡ read_lines (lines rest) (read_content (content line) r)
unfolding read_lines
read_line line rest r one = ap (λ ls. read_lines ls r) (lines-line line rest one)

key_name : IsPlain (ascii "name")
key_name = ((λ e. cc), (refl, (refl, (refl, (refl, tt)))))

finishes_manifest :
    (name : Bytes) (entries : List NamedAddressAssignment)
    → IsValue name
    → All IsEntry entries
    → read_lines (lines (print_manifest name entries)) start ≡ in_addresses name entries
finishes_manifest name entries quotable h =
    let addresses = print_addresses entries in
    let section = ascii "[addresses]\n" ++ addresses in
    read_line (ascii "[package]") (print_entry (ascii "name") name ++ b'\n' ∷ section) start
      (omega arith)
    ∙ ap (read_lines (lines (print_entry (ascii "name") name ++ b'\n' ∷ section))) enter_package
    ∙ read_line_entry (ascii "name") name section (in_package none) key_name quotable
    ∙ ap (read_lines (lines section)) (read_name name)
    ∙ read_line (ascii "[addresses]") addresses (in_package (some name)) (omega arith)
    ∙ ap (read_lines (lines addresses)) (enter_addresses name)
    ∙ read_addresses name entries [] h

-- A manifest that is printed with a package name and named addresses is read back: the name, the
-- default policy, and the addresses in their order. The name has no quote, no number sign and no
-- line end; a key has no white space either, no bracket and no equals sign.
pub inspect_move_toml-print_manifest :
    (name : Bytes) (entries : List NamedAddressAssignment)
    → IsValue name
    → All IsEntry entries
    → inspect_move_toml (print_manifest name entries)
      ≡ record { package_name = some name; upgrade_policy = immutable; named_addresses = entries }
unfolding inspect_move_toml finish
inspect_move_toml-print_manifest name entries quotable h =
    ap finish (finishes_manifest name entries quotable h)
