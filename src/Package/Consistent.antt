-- ===== src/Package/Consistent.antt =====
-- What a finished build's metadata and manifest say of the compiled package: `orchestrate_build` of
-- crates/nexus-move-package/src/lib.rs.
use mathlib.Core.Path.{subst}
use nexus_move.Prelude.{
  >>=-eq-ok, ℕ, ◌+◌, ◌≡◌, ◌≢◌, refl, sym, ap, List, [], ◌∷◌, is_empty, length, map, replicate,
  Bytes, ok,
}
use nexus_move.Types.{AccountAddress, HashValue, zero_address, display_bytes}
use nexus_move.Package.{
  NamedAddressAssignment, BuildPlan, CompiledModule, CompiledPackage, ArtifactModule,
  PackageMetadata, ArtifactManifest,
}
use nexus_move.Package.Build.{
  CompileBackend, module_bytes, module_sizes, length-module_bytes, policy_text, named_pair, hashed,
  artifact_module, build_package_metadata, build_artifact_manifest, Built, finish_build,
  finish_build_ok, orchestrate_build,
}

-- The lists have the same length, and their entries are related in their order.
abbrev pub InStep : {A B : Type 0} → (A → B → Type 0) → List A → List B → Type 0
InStep R [] [] = Unit
InStep R [] (b ∷ bs) = ⊥
InStep R (a ∷ xs) [] = ⊥
InStep R (a ∷ xs) (b ∷ bs) = R a b × InStep R xs bs

map-InStep :
    {A B : Type 0} (R : A → B → Type 0) (f : A → B) (xs : List A)
    → ((a : A) → R a (f a))
    → InStep R xs (map f xs)
map-InStep R f [] h = tt
map-InStep R f (a ∷ xs) h = (h a, map-InStep R f xs h)

-- The sizes that a manifest lists.
abbrev pub listed_sizes : List ArtifactModule → ℕ
listed_sizes [] = 0
listed_sizes (m ∷ modules) = m.size_bytes + listed_sizes modules

module _ (blake3 : Bytes → HashValue) where
  -- The manifest's entry of a module: its name, its size and its hash in hexadecimal digits.
  pub record IsListed (m : CompiledModule) (entry : ArtifactModule) : Type 0 where
    pub name : entry.name ≡ m.name
    pub size : entry.size_bytes ≡ length m.bytes
    pub hash : entry.blake3 ≡ display_bytes (blake3 m.bytes)

  -- The metadata's entry of a module: its name and its hash.
  abbrev pub IsHashed : CompiledModule → Bytes × HashValue → Type 0
  IsHashed m entry = (entry.0 ≡ m.name) × (entry.1 ≡ blake3 m.bytes)

  abbrev pub IsNamed : NamedAddressAssignment → Bytes × AccountAddress → Type 0
  IsNamed assignment entry = (entry.0 ≡ assignment.name) × (entry.1 ≡ assignment.address)

  -- The metadata of a package that has not been deployed.
  pub record IsMetadata (c : CompiledPackage) (metadata : PackageMetadata) : Type 0 where
    pub name : metadata.name ≡ c.package_name
    pub hash : metadata.package_hash ≡ blake3 (module_bytes c.modules)
    pub addresses : InStep IsNamed c.named_addresses metadata.named_addresses
    pub modules : InStep IsHashed c.modules metadata.module_hashes
    pub no_abi : metadata.abi_hash ≡ replicate 32 0
    pub policy : metadata.upgrade_policy ≡ c.upgrade_policy
    pub no_deployer : metadata.deployer ≡ replicate 32 0
    pub first : metadata.version ≡ 1

  pub record IsManifest (c : CompiledPackage) (manifest : ArtifactManifest) : Type 0 where
    pub name : manifest.package_name ≡ c.package_name
    pub hash : manifest.package_hash ≡ display_bytes (blake3 (module_bytes c.modules))
    pub count : manifest.module_count ≡ length c.modules
    pub total : manifest.total_bytecode_bytes ≡ length (module_bytes c.modules)
    pub sizes : manifest.total_bytecode_bytes ≡ listed_sizes manifest.modules
    pub policy : manifest.upgrade_policy ≡ policy_text c.upgrade_policy
    pub modules : InStep IsListed c.modules manifest.modules

  -- What the parts of a finished build have to do with one another.
  pub record IsConsistent (backend : CompileBackend) (plan : BuildPlan) (b : Built blake3)
      : Type 0 where
    pub compiled : backend plan ≡ ok b.0
    pub nonempty : b.0.modules ≢ []
    pub metadata : IsMetadata b.0 b.1
    pub manifest : IsManifest b.0 b.2

  listed_sizes-map :
      (modules : List CompiledModule)
      → listed_sizes (map (artifact_module blake3) modules) ≡ module_sizes modules
  listed_sizes-map [] = refl
  listed_sizes-map (m ∷ modules) = ap (λ n. length m.bytes + n) (listed_sizes-map modules)

  build_package_metadata-IsMetadata :
      (c : CompiledPackage) → IsMetadata c (build_package_metadata blake3 c zero_address)
  unfolding build_package_metadata
  build_package_metadata-IsMetadata c = record {
    name = refl;
    hash = refl;
    addresses = map-InStep IsNamed named_pair c.named_addresses (λ a. (refl, refl));
    modules = map-InStep IsHashed (hashed blake3) c.modules (λ m. (refl, refl));
    no_abi = refl;
    policy = refl;
    no_deployer = refl;
    first = refl;
  }

  build_artifact_manifest-IsManifest :
      (c : CompiledPackage) → IsManifest c (build_artifact_manifest blake3 c)
  unfolding build_artifact_manifest
  build_artifact_manifest-IsManifest c = record {
    name = refl;
    hash = refl;
    count = refl;
    total = sym (length-module_bytes c.modules);
    sizes = sym (listed_sizes-map c.modules);
    policy = refl;
    modules =
        map-InStep IsListed (artifact_module blake3) c.modules
          (λ m. record { name = refl; size = refl; hash = refl });
  }

  -- A build that succeeds has the compiler's package, which has a module. Its metadata have the
  -- package's name, policy and named addresses, the hash of all its bytecode, and the name and the
  -- hash of each module, in order; its manifest has the same hash, the number of the modules, the
  -- length of all their bytecode, which is the sum of the sizes listed, and the name, the size and
  -- the hash of each module, in order.
  pub orchestrate_build-IsConsistent :
      (backend : CompileBackend) (plan : BuildPlan) (b : Built blake3)
      → orchestrate_build blake3 backend plan ≡ ok b
      → IsConsistent backend plan b
  unfolding orchestrate_build
  orchestrate_build-IsConsistent backend plan b h =
      let (compiled, done, finished) = >>=-eq-ok (backend plan) (finish_build blake3) h in
      let (some_module, same) = finish_build_ok blake3 compiled b finished in
      subst (IsConsistent backend plan) (sym same) (record {
        compiled = done;
        nonempty = λ e. cc (ap is_empty e, some_module);
        metadata = build_package_metadata-IsMetadata compiled;
        manifest = build_artifact_manifest-IsManifest compiled;
      })
