-- ===== src/Package.antt =====
-- crates/nexus-move-package/src/lib.rs: build plans, the manifest reader, named addresses, package
-- metadata. The compiler behind `CompileBackend` is an argument.
pub mod Toml
pub mod Names
pub mod Merge
pub mod Build
pub mod Consistent
pub mod Backends
pub mod Verified
pub mod Disk
pub mod Framework
pub mod Native
pub mod Entry
pub mod Bootstrap
pub mod Loading
mod Tests
use nexus_move.Prelude.{
  ℕ, zero, suc, ◌+◌, Bool, true, false, Option, none, some, List, [], ◌∷◌, ◌++◌, ◌==◌, ◌&&◌, ◌||◌,
  not, if◌then◌else◌, length, is_empty, total_length, map, replicate, Bytes, bytes_eq, ascii,
  Result, ok, err, panic, map_err, ◌>>=◌, ltb, leb,
}
use nexus_move.Types.{AccountAddress, HashValue, AddressParseError, from_hex_literal, zero_address}

-- `NamedAddressAssignment`
pub record NamedAddressAssignment : Type 0 where
  pub name : Bytes
  pub address : AccountAddress

pub data UpgradePolicy : Type 0 where
  immutable compatible governance_only : UpgradePolicy

pub record PackageMetadata : Type 0 where
  pub name : Bytes
  pub package_hash : HashValue
  pub named_addresses : List (Bytes × AccountAddress)
  pub module_hashes : List (Bytes × HashValue)
  pub abi_hash : HashValue
  pub upgrade_policy : UpgradePolicy
  pub deployer : AccountAddress
  pub version : ℕ

pub record BuildOptions : Type 0 where
  pub package_dir : Bytes
  pub named_addresses : List NamedAddressAssignment
  pub skip_fetch_latest_git_deps : Bool
  pub known_attributes : List Bytes

-- A path is its text.
pub record BuildArtifactLayout : Type 0 where
  pub package_dir : Bytes
  pub build_dir : Bytes
  pub artifact_dir : Bytes
  pub bytecode_dir : Bytes

-- `Path::is_absolute`
abbrev pub is_absolute : Bytes → Bool
is_absolute [] = false
is_absolute (b ∷ s) = b == b'/'

-- The last byte is there, and is no separator.
abbrev pub needs_separator : Bytes → Bool
needs_separator [] = false
needs_separator (b ∷ []) = not (b == b'/')
needs_separator (b ∷ c ∷ s) = needs_separator (c ∷ s)

-- `Path::join`, as it makes the text: an absolute name replaces the path.
abbrev pub join : Bytes → Bytes → Bytes
join path name =
    if is_absolute name
    then name
    else if needs_separator path
    then path ++ b'/' ∷ name
    else path ++ name

-- `BuildArtifactLayout::for_package_dir`
abbrev pub for_package_dir : Bytes → BuildArtifactLayout
for_package_dir package_dir = record {
  package_dir = package_dir;
  build_dir = join package_dir (ascii "build");
  artifact_dir = join package_dir (ascii "nexus-artifact");
  bytecode_dir = join (join package_dir (ascii "nexus-artifact")) (ascii "bytecode");
}

-- A module that a backend compiled.
pub record CompiledModule : Type 0 where
  pub name : Bytes
  pub bytes : Bytes

pub record CompiledPackage : Type 0 where
  pub package_name : Bytes
  pub upgrade_policy : UpgradePolicy
  pub named_addresses : List NamedAddressAssignment
  pub modules : List CompiledModule

pub record ArtifactModule : Type 0 where
  pub name : Bytes
  pub size_bytes : ℕ
  pub blake3 : Bytes

pub record ArtifactManifest : Type 0 where
  pub package_name : Bytes
  pub package_hash : Bytes
  pub module_count : ℕ
  pub total_bytecode_bytes : ℕ
  pub upgrade_policy : Bytes
  pub modules : List ArtifactModule

pub record MoveTomlInfo : Type 0 where
  pub package_name : Option Bytes
  pub upgrade_policy : UpgradePolicy
  pub named_addresses : List NamedAddressAssignment

pub record BuildPlan : Type 0 where
  pub options : BuildOptions
  pub move_toml : MoveTomlInfo
  pub artifact_layout : BuildArtifactLayout

-- `BuildOptions::bootstrap`
abbrev pub bootstrap_options : Bytes → BuildOptions
bootstrap_options package_dir = record {
  package_dir = package_dir;
  named_addresses = [];
  skip_fetch_latest_git_deps = true;
  known_attributes = ascii "view" ∷ [];
}

pub data BuildConfigError : Type 0 where
  missing_separator : Bytes → BuildConfigError
  invalid_address : Bytes → AddressParseError → BuildConfigError

pub data BuildError : Type 0 where
  invalid_config : BuildConfigError → BuildError
  package_dir_missing : Bytes → BuildError
  backend : Bytes → BuildError
  no_modules_produced : BuildError

-- White space of `str::trim`, in ASCII.
abbrev pub is_space : ℕ → Bool
is_space b = (leb 9 b && leb b 13) || (b == 32)

module _ (skip : ℕ → Bool) where
  unfoldable pub trim_start : Bytes → Bytes
  trim_start [] = []
  trim_start (b ∷ s) = if skip b then trim_start s else b ∷ s

  unfoldable pub trim_end : Bytes → Bytes
  trim_end [] = []
  trim_end (b ∷ s) = let rest = trim_end s in if skip b && is_empty rest then [] else b ∷ rest

-- `str::trim`
unfoldable pub trim : Bytes → Bytes
unfolding trim_start trim_end
trim s = trim_end is_space (trim_start is_space s)

-- `str::trim_matches('"')`
unfoldable pub trim_quotes : Bytes → Bytes
unfolding trim_start trim_end
trim_quotes s = trim_end (λ b. b == b'"') (trim_start (λ b. b == b'"') s)

-- `str::split_once`
unfoldable pub split_once : ℕ → Bytes → Option (Bytes × Bytes)
split_once c [] = none
split_once c (b ∷ s) =
    let rest = split_once c s in
    if b == c then some ([], s) else elim rest [ none ↦ none | some p ↦ some (b ∷ p.0, p.1) ]

-- The address of an assignment, named.
unfoldable pub assignment : Bytes × Bytes → Result BuildConfigError NamedAddressAssignment
unfolding trim
assignment (name, address) = do
  parsed ← map_err (invalid_address (trim address)) (from_hex_literal (trim address))
  ok (record { name = trim name; address = parsed })

unfoldable pub parse_named_address_assignment :
    Bytes → Result BuildConfigError NamedAddressAssignment
unfolding split_once assignment
parse_named_address_assignment input = elim (split_once b'=' input) [
  | none ↦ err (missing_separator input)
  | some parts ↦ assignment parts
]

-- `collect` into a `Result`: the first error ends it.
unfoldable pub parse_named_address_assignments :
    List Bytes → Result BuildConfigError (List NamedAddressAssignment)
unfolding parse_named_address_assignment
parse_named_address_assignments [] = ok []
parse_named_address_assignments (input ∷ inputs) =
    let rest = parse_named_address_assignments inputs in
    parse_named_address_assignment input >>= λ one. rest >>= λ others. ok (one ∷ others)
