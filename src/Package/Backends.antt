-- ===== src/Package/Backends.antt =====
-- The backends that load or check bytecode, in crates/nexus-move-package/src: precompiled_backend.rs,
-- verified_backend.rs, and the options of build_package in build.rs. The file system, the bytecode
-- reader and the verifier are parameters.
use nexus_move.Prelude.{
  ℕ, Bool, false, ◌||◌, Option, none, some, List, [], ◌∷◌, ◌++◌, if◌then◌else◌, length, Bytes,
  bytes_eq, ascii, Result, ok, err, map_err, ◌>>=◌, ◌>>◌, replicate,
}
use nexus_move.Prelude.Orders.{bytes_order}
use nexus_move.Prelude.Sorting.{sort_by}
use nexus_move.Types.{AccountAddress, HashValue}
use nexus_move.Package.{
  BuildOptions, BuildPlan, BuildError, package_dir_missing, backend, CompiledModule,
  CompiledPackage, join, bootstrap_options,
}
use nexus_move.Package.Toml.{inspect_move_toml}
use nexus_move.Package.Merge.{Assignments, merged_named_addresses}
use nexus_move.Package.Build.{CompileBackend}

-- An entry of a directory, by what `std::path` reads of it.
pub record DirEntry : Type 0 where
  pub path : Bytes
  pub stem : Option Bytes
  pub extension : Option Bytes

pub record FileSystem : Type 0 where
  pub exists : Bytes → Bool
  pub read_dir : Bytes → Result Bytes (List (Result Bytes DirEntry))
  pub read : Bytes → Result Bytes Bytes

abbrev pub or_text : Bytes → Option Bytes → Bytes
or_text fallback none = fallback
or_text fallback (some text) = text

abbrev pub is_mv : Option Bytes → Bool
is_mv none = false
is_mv (some extension) = bytes_eq extension (ascii "mv")

module _ (fs : FileSystem) where
  unfoldable pub load_entry : DirEntry → Result BuildError (List CompiledModule)
  load_entry entry =
      if is_mv entry.extension
      then (map_err (λ e. backend (ascii "failed to read " ++ (entry.path ++ (ascii ": " ++ e))))
            (fs.read entry.path)
          >>= λ bytes.
              ok (record { name = or_text (ascii "unknown") entry.stem; bytes = bytes } ∷ []))
      else ok []

  -- The loop over the entries.
  unfoldable pub load_entries :
      List (Result Bytes DirEntry) → Result BuildError (List CompiledModule)
  unfolding load_entry
  load_entries [] = ok []
  load_entries (entry ∷ entries) =
      let rest = load_entries entries in
      map_err backend entry >>= λ e.
      load_entry e >>= λ modules. rest >>= λ others. ok (modules ++ others)

  abbrev pub or_artifact_dir : Option Bytes → BuildPlan → Bytes
  or_artifact_dir (some dir) plan = dir
  or_artifact_dir none plan =
      join (join plan.artifact_layout.package_dir (ascii "nexus-artifact")) (ascii "bytecode")

  unfoldable pub load_dir : Bytes → Result BuildError (List CompiledModule)
  unfolding load_entries sort_by
  load_dir dir =
      map_err (λ e. backend (ascii "failed to read bytecode dir " ++ (dir ++ (ascii ": " ++ e))))
        (fs.read_dir dir)
      >>= load_entries
      >>= λ modules. ok (sort_by (λ (m : CompiledModule). m.name) modules)

  -- `PrecompiledBackend::compile`, of the backend with or without a directory of its own
  unfoldable pub precompiled_compile : Option Bytes → CompileBackend
  unfolding load_dir
  precompiled_compile bytecode_dir plan =
      let dir = or_artifact_dir bytecode_dir plan in
      if fs.exists dir
      then (load_dir dir >>= λ modules. ok (record {
        package_name = or_text (ascii "unknown") plan.move_toml.package_name;
        upgrade_policy = plan.move_toml.upgrade_policy;
        named_addresses = merged_named_addresses plan;
        modules = modules;
      }))
      else err (package_dir_missing dir)

-- What the verified backend reads of a module, dependencies and friends as they are displayed.
pub record ParsedModule : Type 0 where
  pub name : Bytes
  pub address : AccountAddress
  pub immediate_dependencies : List Bytes
  pub immediate_friends : List Bytes

pub record BytecodeTools : Type 0 where
  pub blake3 : Bytes → HashValue
  pub deserialize : Bytes → Result Bytes ParsedModule
  pub verify_module : ParsedModule → Result Bytes (Unit {0})

pub record ModuleInfo : Type 0 where
  pub name : Bytes
  pub address : AccountAddress
  pub bytecode_hash : HashValue
  pub bytecode_size : ℕ
  pub immediate_dependencies : List Bytes
  pub friends : List Bytes

pub record VerifiedBuildResult : Type 0 where
  pub compiled_package : CompiledPackage
  pub module_info : List ModuleInfo

module _ (tools : BytecodeTools) where
  abbrev pub info_of : Bytes → ParsedModule → ModuleInfo
  info_of bytes compiled = record {
    name = compiled.name;
    address = compiled.address;
    bytecode_hash = tools.blake3 bytes;
    bytecode_size = length bytes;
    immediate_dependencies = compiled.immediate_dependencies;
    friends = compiled.immediate_friends;
  }

  abbrev pub labelled : Bytes → Bytes → Bytes → BuildError
  labelled label what e = backend (ascii "'" ++ (label ++ (what ++ e)))

  -- `verify_bytecode_bytes`
  unfoldable pub verify_bytecode_bytes : Bytes → Bytes → Result BuildError ModuleInfo
  verify_bytecode_bytes bytes label =
      map_err (labelled label (ascii "' deserialization failed: ")) (tools.deserialize bytes)
      >>= λ compiled.
          map_err (labelled label (ascii "' verification failed: ")) (tools.verify_module compiled)
          >> ok (info_of bytes compiled)

  abbrev pub module_failed : CompiledModule → Bytes → Bytes → BuildError
  module_failed m what e = backend (ascii "module '" ++ (m.name ++ (what ++ e)))

  -- The loop of `compile_verified` over the package's modules.
  unfoldable pub verify_each : List CompiledModule → Result BuildError (List ModuleInfo)
  verify_each [] = ok []
  verify_each (m ∷ modules) =
      let rest = verify_each modules in
      map_err (module_failed m (ascii "' deserialization failed: ")) (tools.deserialize m.bytes)
      >>= λ compiled.
          map_err (module_failed m (ascii "' verification failed: ")) (tools.verify_module compiled)
          >> (rest >>= λ infos. ok (info_of m.bytes compiled ∷ infos))

  unfoldable pub compile_verified :
      CompileBackend → BuildPlan → Result BuildError VerifiedBuildResult
  unfolding verify_each
  compile_verified delegate plan = delegate plan >>= λ compiled_package.
      verify_each compiled_package.modules >>= λ module_info.
      ok (record { compiled_package = compiled_package; module_info = module_info })

  -- `VerifiedCompileBackend::compile`
  unfoldable pub verified_compile : CompileBackend → CompileBackend
  unfolding compile_verified
  verified_compile delegate plan =
      compile_verified delegate plan >>= λ result. ok result.compiled_package

-- The name of the framework's address.
abbrev pub std_name : Bytes
std_name = ascii "std"

abbrev pub names_std : Assignments → Bool
names_std [] = false
names_std (e ∷ entries) = let rest = names_std entries in bytes_eq e.name std_name || rest

abbrev pub std_address : AccountAddress
std_address = replicate 31 0 ++ 1 ∷ []

-- The named addresses of the options in `build_package`: `std` is added unless the options or the
-- manifest name it.
unfoldable pub build_addresses : Assignments → Bytes → Assignments
build_addresses additional move_toml_contents =
    if names_std additional || names_std (inspect_move_toml move_toml_contents).named_addresses
    then additional
    else additional ++ record { name = std_name; address = std_address } ∷ []

unfoldable pub build_options : Bytes → Assignments → Bytes → BuildOptions
unfolding build_addresses
build_options package_dir additional move_toml_contents = record (bootstrap_options package_dir) {
  named_addresses = build_addresses additional move_toml_contents;
}
