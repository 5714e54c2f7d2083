-- ===== src/Package/Entry.antt =====
-- `build_package` of crates/nexus-move-package/src/build.rs, from the manifest to the artifacts on
-- the disk. blake3, the framework's bytecode, the compiler and the encoders are parameters.
pub mod Artifacts
pub mod Written
pub mod Confined
pub mod Frame
pub mod Success
pub mod Progress
pub mod Liveness
mod Tests
use nexus_move.Prelude.{
  ℕ, Option, none, some, List, [], ◌∷◌, ◌++◌, length, Bytes, ascii, Result, ok,
}
use nexus_move.Types.{HashValue}
use nexus_move.Package.{
  BuildPlan, BuildError, package_dir_missing, backend, CompiledModule, CompiledPackage,
  PackageMetadata, ArtifactManifest, BuildArtifactLayout, join,
}
use nexus_move.Package.Merge.{Assignments}
use nexus_move.Package.Build.{make_build_plan, Built, orchestrate_build, module_sizes}
use nexus_move.Package.Backends.{build_options}
use nexus_move.Package.Disk.{
  Disk, Fs, return, ◌>>=◌, ◌>>◌, fail_as, failing_as, create_dir_all, write, read_to_string, exists,
}
use nexus_move.Package.Framework.{mv_path, write_failed, write_embedded_framework}
use nexus_move.Package.Native.{Compiler, with_bytecode_deps, native_compile}

pub record BuildTools : Type 0 where
  pub blake3 : Bytes → HashValue
  pub embedded : Bytes → Bytes
  pub run_move_compiler : Compiler
  pub encode_metadata : PackageMetadata → Result Bytes Bytes
  pub encode_artifact_manifest_json : ArtifactManifest → Result Bytes Bytes

pub record BuildResult : Type 0 where
  pub compiled : CompiledPackage
  pub metadata : PackageMetadata
  pub artifact_dir : Bytes
  pub module_count : ℕ
  pub total_bytes : ℕ

abbrev pub failed : Bytes → Bytes → BuildError
failed what e = backend (what ++ e)

-- The loop that writes the `.mv` files.
unfoldable pub write_bytecode : Bytes → List CompiledModule → Fs BuildError (Unit {0})
unfolding write
write_bytecode dir [] = return (ok tt)
write_bytecode dir (m ∷ modules) =
    let rest = write_bytecode dir modules in
    let mv_path = mv_path dir m.name in
    failing_as (write_failed mv_path) (write mv_path m.bytes) >> rest

-- A file of the artifact directory, once its contents are encoded.
unfoldable pub write_encoded : Bytes → Result Bytes Bytes → Bytes → Bytes → Fs BuildError (Unit {0})
unfolding write
write_encoded path encoded encoding_failed writing_failed =
    return (fail_as (failed encoding_failed) encoded) >>= λ bytes.
    failing_as (failed writing_failed) (write path bytes)

abbrev pub metadata_path : BuildArtifactLayout → Bytes
metadata_path layout = join layout.artifact_dir (ascii "package-metadata.bcs")

abbrev pub manifest_path : BuildArtifactLayout → Bytes
manifest_path layout = join layout.artifact_dir (ascii "manifest.json")

abbrev pub creation_failed : Bytes → Bytes → BuildError
creation_failed dir e = backend (ascii "failed to create " ++ (dir ++ (ascii ": " ++ e)))

abbrev pub unencoded_metadata : Bytes
unencoded_metadata = ascii "metadata serialization failed: "

abbrev pub unwritten_metadata : Bytes
unwritten_metadata = ascii "failed to write metadata: "

abbrev pub unencoded_manifest : Bytes
unencoded_manifest = ascii "manifest JSON failed: "

abbrev pub unwritten_manifest : Bytes
unwritten_manifest = ascii "failed to write manifest: "

abbrev pub manifest_unreadable : Bytes → Bytes → BuildError
manifest_unreadable path e = package_dir_missing (path ++ (ascii ": " ++ e))

unfoldable pub read_manifest : Bytes → Fs BuildError Bytes
unfolding read_to_string
read_manifest package_dir d =
    let path = join package_dir (ascii "Move.toml") in
    (fail_as (manifest_unreadable path) (read_to_string d path), d)

unfoldable pub plan_build : Bytes → Assignments → Bytes → Fs BuildError BuildPlan
unfolding make_build_plan build_options
plan_build package_dir additional contents d =
    (make_build_plan (exists d) (build_options package_dir additional contents) contents, d)

module _ (tools : BuildTools) where
  -- The directory of the framework's bytecode: the caller's, or a written copy of the embedded one.
  unfoldable pub framework_dir : Option Bytes → BuildArtifactLayout → Fs BuildError Bytes
  unfolding write_embedded_framework
  framework_dir (some dir) layout = return (ok dir)
  framework_dir none layout =
      let tmp = join layout.build_dir (ascii "framework") in
      write_embedded_framework tools.embedded tmp >> return (ok tmp)

  -- The backend behind `orchestrate_build` is the native one on this disk; the disk that it leaves
  -- is what the compiler has made of it.
  unfoldable pub compile_plan : BuildPlan → Bytes → Fs BuildError (Built tools.blake3)
  unfolding orchestrate_build native_compile
  compile_plan plan fw_dir d =
      let compile = native_compile tools.run_move_compiler (with_bytecode_deps (fw_dir ∷ [])) d in
      (orchestrate_build tools.blake3 (λ p. (compile p).0) plan, (compile plan).1)

  unfoldable pub write_artifacts :
      BuildArtifactLayout → Built tools.blake3 → Fs BuildError (Unit {0})
  unfolding create_dir_all write_bytecode write_encoded
  write_artifacts layout (compiled, metadata, manifest) =
      failing_as (creation_failed layout.bytecode_dir) (create_dir_all layout.bytecode_dir)
      >> (write_bytecode layout.bytecode_dir compiled.modules
          >> (write_encoded (metadata_path layout) (tools.encode_metadata metadata)
                unencoded_metadata unwritten_metadata
              >> write_encoded (manifest_path layout) (tools.encode_artifact_manifest_json manifest)
                  unencoded_manifest unwritten_manifest))

  abbrev pub result_of : BuildArtifactLayout → Built tools.blake3 → BuildResult
  result_of layout (compiled, metadata, manifest) = record {
    compiled = compiled;
    metadata = metadata;
    artifact_dir = layout.artifact_dir;
    module_count = length compiled.modules;
    total_bytes = module_sizes compiled.modules;
  }

  -- What follows once the plan is made.
  unfoldable pub build_plan : Option Bytes → BuildPlan → Fs BuildError BuildResult
  unfolding framework_dir compile_plan write_artifacts
  build_plan framework_bytecode_dir plan =
      let layout = plan.artifact_layout in
      framework_dir framework_bytecode_dir layout >>= λ fw_dir.
      compile_plan plan fw_dir >>= λ built.
      write_artifacts layout built >> return (ok (result_of layout built))

  unfoldable pub build_package : Bytes → Assignments → Option Bytes → Fs BuildError BuildResult
  unfolding read_manifest plan_build build_plan
  build_package package_dir additional_named_addresses framework_bytecode_dir =
      read_manifest package_dir >>= λ contents.
      plan_build package_dir additional_named_addresses contents >>= λ plan.
      build_plan framework_bytecode_dir plan
