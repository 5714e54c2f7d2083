-- ===== src/Package/Tests.antt =====
-- A manifest, assignments and a build on concrete texts.
use nexus_move.Prelude.{◌≡◌, refl, arith, some, [], ◌∷◌, ◌++◌, replicate, Bytes, ascii, ok}
use nexus_move.Types.{
  AccountAddress, HashValue, from_hex_literal, decode_hex, decode_hex_from, decode_nibble,
  from_decoded,
}
use nexus_move.Package.{
  NamedAddressAssignment, BuildPlan, MoveTomlInfo, CompiledPackage, compatible, immutable,
  bootstrap_options, for_package_dir,
}
use nexus_move.Package.Toml.{inspect_move_toml}
use nexus_move.Package.Toml.Reading.{print_manifest, inspect_move_toml-print_manifest}
use nexus_move.Package.Backends.{
  ParsedModule, BytecodeTools, VerifiedBuildResult, info_of, compile_verified, std_address,
}
use nexus_move.Package.Verified.{AreVerified, compile_verified-AreVerified}
use nexus_move.Package.Merge.{
  address_of, merged_named_addresses, merged_named_addresses_lem, put, put_all,
}
use nexus_move.Package.Build.{
  CompileBackend, orchestrate_build, build_package_metadata, build_artifact_manifest,
}
use nexus_move.Package.Consistent.{IsConsistent, orchestrate_build-IsConsistent}

abbrev cafe : AccountAddress
cafe = replicate 30 0 ++ 0xca ∷ 0xfe ∷ []

abbrev beef : AccountAddress
beef = replicate 30 0 ++ 0xbe ∷ 0xef ∷ []

abbrev named : Bytes → AccountAddress → NamedAddressAssignment
named name address = record { name = name; address = address }

abbrev manifest : Bytes
manifest =
    ascii
      "[package] # the counter\nname = \"counter\"\nupgrade_policy = \"compatible\"\n\n[addresses]\nowner = \"0xCAFE\"\nlater = \"_\"\n"

abbrev counter_toml : MoveTomlInfo
counter_toml = record {
  package_name = some (ascii "counter");
  upgrade_policy = compatible;
  named_addresses = named (ascii "owner") cafe ∷ [];
}

reads_manifest : inspect_move_toml manifest ≡ counter_toml
unfolding inspect_move_toml decode_hex decode_hex_from decode_nibble from_decoded from_hex_literal
reads_manifest = refl

abbrev plan : BuildPlan
plan = record {
  options = record (bootstrap_options (ascii "counter")) {
    named_addresses = named (ascii "owner") beef ∷ named (ascii "guest") cafe ∷ [];
  };
  move_toml = counter_toml;
  artifact_layout = for_package_dir (ascii "counter");
}

overrides_owner :
    merged_named_addresses plan ≡ named (ascii "owner") beef ∷ named (ascii "guest") cafe ∷ []
unfolding merged_named_addresses put put_all
overrides_owner = refl

merged_named_addresses_lem_example :
    address_of (ascii "owner") (merged_named_addresses plan) ≡ some beef
merged_named_addresses_lem_example = merged_named_addresses_lem plan (ascii "owner")

abbrev identity : Bytes → HashValue
identity s = s

abbrev compiled : CompiledPackage
compiled = record {
  package_name = ascii "counter";
  upgrade_policy = compatible;
  named_addresses = record { name = ascii "owner"; address = cafe } ∷ [];
  modules = record { name = ascii "counter"; bytes = 1 ∷ 2 ∷ [] } ∷ [];
}

abbrev compiler : CompileBackend
compiler p = ok compiled

orchestrate_build-IsConsistent_example : IsConsistent identity compiler plan (
  compiled,
  build_package_metadata identity compiled (replicate 32 0),
  build_artifact_manifest identity compiled,
)
unfolding orchestrate_build
orchestrate_build-IsConsistent_example =
    orchestrate_build-IsConsistent identity compiler plan _ refl

inspect_move_toml-print_manifest_example :
    inspect_move_toml (print_manifest (ascii "counter") (named (ascii "owner") cafe ∷ []))
    ≡ record {
      package_name = some (ascii "counter");
      upgrade_policy = immutable;
      named_addresses = named (ascii "owner") cafe ∷ [];
    }
inspect_move_toml-print_manifest_example =
    inspect_move_toml-print_manifest (ascii "counter") (named (ascii "owner") cafe ∷ [])
      ((λ e. cc), (refl, (refl, (refl, (refl, (refl, (refl, (refl, tt))))))))
      (
        (
          ((λ e. cc), (refl, (refl, (refl, (refl, (refl, tt)))))),
          record { size = refl; bytes = omega arith },
        ),
        tt,
      )

std_is_one : from_hex_literal (ascii "0x1") ≡ ok std_address
unfolding from_hex_literal decode_hex decode_hex_from decode_nibble from_decoded
std_is_one = refl

abbrev parsed : ParsedModule
parsed = record {
  name = ascii "counter";
  address = cafe;
  immediate_dependencies = [];
  immediate_friends = [];
}

abbrev tools : BytecodeTools
tools = record { blake3 = λ s. s; deserialize = λ s. ok parsed; verify_module = λ m. ok tt }

abbrev verified : VerifiedBuildResult
verified = record {
  compiled_package = compiled;
  module_info = info_of tools (1 ∷ 2 ∷ []) parsed ∷ [];
}

compile_verified-AreVerified_example :
    (compiler plan ≡ ok compiled)
    × AreVerified tools compiled.modules (info_of tools (1 ∷ 2 ∷ []) parsed ∷ [])
unfolding compile_verified
compile_verified-AreVerified_example =
    compile_verified-AreVerified tools compiler plan verified refl
