-- ===== src/Package/Build.antt =====
-- The end of a build, in crates/nexus-move-package/src/lib.rs: metadata, manifest, and the order of
-- the steps. blake3 and the compiler are parameters.
use nexus_move.Prelude.{
  ℕ, ◌+◌, ◌≡◌, refl, sym, ap, ◌∙◌, Bool, false, List, [], ◌∷◌, ◌++◌, inl, inr, if◌then◌else◌,
  is_empty, length, replicate, map, Bytes, ascii, Result, ok, err, ◌>>=◌, Bool-cases,
}
use nexus_move.Prelude.Lists.{length-append}
use nexus_move.Types.{AccountAddress, HashValue, zero_address, display_bytes}
use nexus_move.Package.{
  NamedAddressAssignment, UpgradePolicy, immutable, compatible, governance_only, PackageMetadata,
  BuildOptions, BuildPlan, BuildError, package_dir_missing, no_modules_produced, CompiledModule,
  CompiledPackage, ArtifactModule, ArtifactManifest, for_package_dir,
}
use nexus_move.Package.Toml.{inspect_move_toml}

-- `trait CompileBackend`
abbrev pub CompileBackend : Type 0
CompileBackend = BuildPlan → Result BuildError CompiledPackage

-- `exists` tells whether the file system has the directory.
unfoldable pub make_build_plan : (Bytes → Bool) → BuildOptions → Bytes → Result BuildError BuildPlan
make_build_plan exists options move_toml_contents =
    if exists options.package_dir
    then ok (record {
      options = options;
      move_toml = inspect_move_toml move_toml_contents;
      artifact_layout = for_package_dir options.package_dir;
    })
    else err (package_dir_missing options.package_dir)

-- `modules.iter().flat_map(|module| module.bytes.clone())`
abbrev pub module_bytes : List CompiledModule → Bytes
module_bytes [] = []
module_bytes (m ∷ modules) = m.bytes ++ module_bytes modules

-- `modules.iter().map(|module| module.bytes.len()).sum()`
abbrev pub module_sizes : List CompiledModule → ℕ
module_sizes [] = 0
module_sizes (m ∷ modules) = length m.bytes + module_sizes modules

abbrev pub named_pair : NamedAddressAssignment → Bytes × AccountAddress
named_pair entry = (entry.name, entry.address)

-- The derived `Debug`.
abbrev pub policy_text : UpgradePolicy → Bytes
policy_text immutable = ascii "Immutable"
policy_text compatible = ascii "Compatible"
policy_text governance_only = ascii "GovernanceOnly"

ok_injective : {A : Type 0} {a b : A} → ◌≡◌ {A = Result BuildError A} (ok a) (ok b) → a ≡ b
ok_injective h = cc

module _ (blake3 : Bytes → HashValue) where
  abbrev pub hashed : CompiledModule → Bytes × HashValue
  hashed m = (m.name, blake3 m.bytes)

  unfoldable pub build_package_metadata : CompiledPackage → AccountAddress → PackageMetadata
  build_package_metadata compiled deployer = record {
    name = compiled.package_name;
    package_hash = blake3 (module_bytes compiled.modules);
    named_addresses = map named_pair compiled.named_addresses;
    module_hashes = map hashed compiled.modules;
    abi_hash = replicate 32 0;
    upgrade_policy = compiled.upgrade_policy;
    deployer = deployer;
    version = 1;
  }

  -- `to_hex` writes two digits for each byte.
  abbrev pub artifact_module : CompiledModule → ArtifactModule
  artifact_module m = record {
    name = m.name;
    size_bytes = length m.bytes;
    blake3 = display_bytes (blake3 m.bytes);
  }

  unfoldable pub build_artifact_manifest : CompiledPackage → ArtifactManifest
  build_artifact_manifest compiled = record {
    package_name = compiled.package_name;
    package_hash = display_bytes (blake3 (module_bytes compiled.modules));
    module_count = length compiled.modules;
    total_bytecode_bytes = module_sizes compiled.modules;
    upgrade_policy = policy_text compiled.upgrade_policy;
    modules = map artifact_module compiled.modules;
  }

  abbrev pub Built : Type 0
  Built = CompiledPackage × PackageMetadata × ArtifactManifest

  -- What follows a compilation.
  unfoldable pub finish_build : CompiledPackage → Result BuildError Built
  unfolding build_package_metadata build_artifact_manifest
  finish_build compiled =
      if is_empty compiled.modules
      then err no_modules_produced
      else ok
          (compiled, build_package_metadata compiled zero_address, build_artifact_manifest compiled)

  unfoldable pub orchestrate_build : CompileBackend → BuildPlan → Result BuildError Built
  unfolding finish_build
  orchestrate_build backend plan = backend plan >>= finish_build

pub length-module_bytes :
    (modules : List CompiledModule) → length (module_bytes modules) ≡ module_sizes modules
length-module_bytes [] = refl
length-module_bytes (m ∷ modules) =
    length-append m.bytes (module_bytes modules)
    ∙ ap (λ n. length m.bytes + n) (length-module_bytes modules)

module _ (blake3 : Bytes → HashValue) where
  pub finish_build_ok :
      (compiled : CompiledPackage) (b : Built blake3)
      → finish_build blake3 compiled ≡ ok b
      → (is_empty compiled.modules ≡ false)
        × (b ≡ (
          compiled,
          build_package_metadata blake3 compiled zero_address,
          build_artifact_manifest blake3 compiled,
        ))
  unfolding finish_build
  finish_build_ok compiled b h = elim (Bool-cases (is_empty compiled.modules)) [
    | inl e ↦ cc (e, h)
    | inr e ↦ (e, ok_injective (sym h ∙ rw e refl))
  ]
