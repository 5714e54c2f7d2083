-- ===== src/Package/Toml.antt =====
-- `inspect_move_toml` of crates/nexus-move-package/src/lib.rs: a reader of the manifest, line by
-- line. A text is its bytes.
pub mod Printing
pub mod Reading
use nexus_move.Prelude.{
  ℕ, zero, suc, ◌+◌, Bool, true, false, not, ◌&&◌, ◌||◌, Option, none, some, List, [], ◌∷◌, ◌++◌,
  ◌==◌, if◌then◌else◌, length, is_empty, Bytes, bytes_eq, ascii, Result, ok, err, panic,
}
use nexus_move.Types.{AccountAddress, from_hex_literal, Parse}
use nexus_move.Package.{
  NamedAddressAssignment, UpgradePolicy, immutable, compatible, governance_only, MoveTomlInfo, trim,
  trim_quotes, split_once,
}

-- The text before the first `c`.
unfoldable pub before : ℕ → Bytes → Bytes
before c [] = []
before c (b ∷ s) = let rest = before c s in if b == c then [] else b ∷ rest

-- `str::lines`, the line under way in front: at a newline, and at the end of the text unless the
-- line is empty. A carriage return before the newline goes with the trim of each line.
unfoldable pub lines : Bytes → List Bytes
lines [] = []
lines (b ∷ s) =
    let rest = lines s in
    if b == b'\n' then [] ∷ rest else elim rest [ [] ↦ (b ∷ []) ∷ [] | ◌∷◌ l ls ↦ (b ∷ l) ∷ ls ]

-- `push_named_address`: a placeholder and an address that does not parse are skipped.
abbrev pub push_parsed :
    Bytes → Parse AccountAddress → List NamedAddressAssignment → List NamedAddressAssignment
push_parsed name (ok address) output = output ++ record { name = name; address = address } ∷ []
push_parsed name (err e) output = output
push_parsed name panic output = output

unfoldable pub push_named_address :
    Bytes → Bytes → List NamedAddressAssignment → List NamedAddressAssignment
push_named_address name value output =
    if bytes_eq value (b'_' ∷ []) then output else push_parsed name (from_hex_literal value) output

-- The variables of the loop.
pub record Reader : Type 0 where
  pub current_section : Bytes
  pub package_name : Option Bytes
  pub package_policy : UpgradePolicy
  pub addresses : List NamedAddressAssignment
  pub dev_addresses : List NamedAddressAssignment

abbrev pub start : Reader
start = record {
  current_section = [];
  package_name = none;
  package_policy = immutable;
  addresses = [];
  dev_addresses = [];
}

abbrev pub parse_policy : Bytes → UpgradePolicy
parse_policy value =
    if bytes_eq value (ascii "compatible")
    then compatible
    else if bytes_eq value (ascii "governance") || bytes_eq value (ascii "governance_only")
    then governance_only
    else immutable

-- The `match` on the section, for a key and its value.
unfoldable pub read_entry : Bytes → Bytes → Reader → Reader
unfolding push_named_address
read_entry key value r =
    if bytes_eq r.current_section (ascii "package") && bytes_eq key (ascii "name")
    then record r { package_name = some value }
    else if bytes_eq r.current_section (ascii "package") && bytes_eq key (ascii "upgrade_policy")
    then record r { package_policy = parse_policy value }
    else if bytes_eq r.current_section (ascii "addresses")
    then record r { addresses = push_named_address key value r.addresses }
    else if bytes_eq r.current_section (ascii "dev-addresses")
    then record r { dev_addresses = push_named_address key value r.dev_addresses }
    else r

abbrev pub last_is : ℕ → Bytes → Bool
last_is c [] = false
last_is c (b ∷ []) = b == c
last_is c (b ∷ b' ∷ s) = last_is c (b' ∷ s)

abbrev pub first_is : ℕ → Bytes → Bool
first_is c [] = false
first_is c (b ∷ s) = b == c

-- `line.starts_with('[') && line.ends_with(']')`
abbrev pub is_header : Bytes → Bool
is_header line = first_is b'[' line && last_is b']' line

abbrev pub drop_last : Bytes → Bytes
drop_last [] = []
drop_last (b ∷ []) = []
drop_last (b ∷ b' ∷ s) = b ∷ drop_last (b' ∷ s)

-- `line[1..line.len() - 1].trim()`
unfoldable pub section_name : Bytes → Bytes
unfolding trim
section_name [] = []
section_name (b ∷ s) = trim (drop_last s)

-- What is left of a line: `raw_line.split('#').next().unwrap_or("").trim()`
unfoldable pub content : Bytes → Bytes
unfolding before trim
content raw_line = trim (before b'#' raw_line)

-- A trimmed line.
unfoldable pub read_content : Bytes → Reader → Reader
unfolding section_name split_once trim trim_quotes read_entry
read_content line r =
    if is_empty line
    then r
    else if is_header line
    then record r { current_section = section_name line }
    else elim (split_once b'=' line) [
      | none ↦ r
      | some parts ↦ read_entry (trim parts.0) (trim_quotes (trim parts.1)) r
    ]

unfoldable pub read_lines : List Bytes → Reader → Reader
unfolding content read_content
read_lines [] r = r
read_lines (raw_line ∷ rest) r = read_lines rest (read_content (content raw_line) r)

unfoldable pub finish : Reader → MoveTomlInfo
finish r = record {
  package_name = r.package_name;
  upgrade_policy = r.package_policy;
  named_addresses = if is_empty r.dev_addresses then r.addresses else r.dev_addresses;
}

unfoldable pub inspect_move_toml : Bytes → MoveTomlInfo
unfolding lines read_lines finish
inspect_move_toml contents = finish (read_lines (lines contents) start)
