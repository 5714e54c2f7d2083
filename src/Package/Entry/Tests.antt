-- ===== src/Package/Entry/Tests.antt =====
-- A build of a small package on a small disk.
use mathlib.Core.Path.{subst}
use nexus_move.Prelude.{
  Result, ◌≢◌, ◌≡◌, refl, ap, true, false, ◌||◌, none, some, [], ◌∷◌, replicate, Bytes, bytes_eq,
  ascii, ok, All,
}
use nexus_move.Prelude.Map.{lookup, insert, lookup-insert_ne}
use nexus_move.Prelude.Orders.{bytes_order, cmp_bytes}
use nexus_move.Prelude.Utf8.{is_utf8}
use nexus_move.Stdlib.{framework_table, framework_names}
use nexus_move.Package.{BuildError, CompiledPackage, compatible, for_package_dir}
use nexus_move.Package.Toml.{inspect_move_toml}
use nexus_move.Package.Merge.{merged_named_addresses}
use nexus_move.Package.Build.{Built, build_package_metadata, build_artifact_manifest}
use nexus_move.Package.Backends.{build_options, std_name, std_address}
use nexus_move.Package.Disk.{Disk, is_above}
use nexus_move.Package.Framework.{mv_path, write_embedded_framework}
use nexus_move.Package.Framework.Laws.{WrittenFrom}
use nexus_move.Package.Framework.Written.{
  write_embedded_framework_lem, write_embedded_framework_again,
}
use nexus_move.Package.Native.{Compiler, module_unit, script_unit}
use nexus_move.Package.Entry.{
  BuildTools, BuildResult, framework_dir, compile_plan, result_of, build_package,
}
use nexus_move.Package.Entry.Success.{IsComplete, build_package-IsComplete}
use nexus_move.Package.Native.Laws.{ok_injective}
use nexus_move.Package.Entry.Confined.{AreFlat, IsConfined}
use nexus_move.Package.Entry.Frame.{build_package_frame}
use nexus_move.Package.Entry.Liveness.{planned, build_package_succeeds}

abbrev manifest : Bytes
manifest = ascii "[package]\nname = \"counter\"\nupgrade_policy = \"compatible\"\n"

abbrev before : Disk
before = record {
  files = (ascii "p/Move.toml", manifest) ∷ [];
  is_dir = λ q. bytes_eq q (ascii "p") || bytes_eq q (ascii "p/sources");
  refuse = λ q. none;
  unreadable = λ q. none;
}

-- A compiler that leaves an interface file.
abbrev compiler : Compiler
compiler d options = (
  ok (script_unit ∷ module_unit (ascii "counter") (ok (1 ∷ 2 ∷ [])) ∷ []),
  record d { files = insert (ascii "build/mv_interfaces/option.move") (ascii "module") d.files },
)

compiler-IsConfined : IsConfined compiler (ascii "build/mv_interfaces")
compiler-IsConfined = record {
  keeps = λ d o q out.
      lookup-insert_ne (ascii "build/mv_interfaces/option.move") q (ascii "module") d.files
        (λ e. cc (ap (is_above (ascii "build/mv_interfaces")) e, out, inside));
  flat = λ d o units same. subst AreFlat (ok_injective same) (refl, tt);
}
  where
    inside : is_above (ascii "build/mv_interfaces") (ascii "build/mv_interfaces/option.move") ≡ true
    inside = unfold is_above in refl

abbrev tools : BuildTools
tools = record {
  blake3 = λ s. s;
  embedded = λ name. name;
  run_move_compiler = compiler;
  encode_metadata = λ m. ok m.name;
  encode_artifact_manifest_json = λ m. ok m.package_name;
}

abbrev compiled : CompiledPackage
compiled = record {
  package_name = ascii "counter";
  upgrade_policy = compatible;
  named_addresses = record { name = std_name; address = std_address } ∷ [];
  modules = record { name = ascii "counter"; bytes = 1 ∷ 2 ∷ [] } ∷ [];
}

abbrev built : Built (λ s. s)
built = (
  compiled,
  build_package_metadata (λ s. s) compiled (replicate 32 0),
  build_artifact_manifest (λ s. s) compiled,
)

abbrev result : BuildResult
result = result_of tools (for_package_dir (ascii "p")) built

compiles : (compile_plan tools (planned (ascii "p") [] manifest) (ascii "f") before).0 ≡ ok built
unfolding compile_plan build_options inspect_move_toml merged_named_addresses
compiles = refl

leaves_open :
    (path : Bytes)
    → (compile_plan tools (planned (ascii "p") [] manifest) (ascii "f") before).1.refuse path ≡ none
unfolding compile_plan build_options
leaves_open path = refl

abbrev path_of : Result BuildError Bytes → Bytes
path_of (ok path) = path
path_of _ = []

builds : (build_package tools (ascii "p") [] (some (ascii "f")) before).0 ≡ ok result
unfolding build_package inspect_move_toml lookup cmp_bytes merged_named_addresses
builds = refl

build_package-IsComplete_example :
    IsComplete tools
      (ascii "p")
      result
      (build_package tools (ascii "p") [] (some (ascii "f")) before).1
build_package-IsComplete_example =
    build_package-IsComplete tools (ascii "p") [] (some (ascii "f")) before result builds (refl, tt)
      (tt, tt)

build_package_frame_example :
    lookup (ascii "p/Move.toml") (build_package tools (ascii "p") [] none before).1.files
    ≡ some manifest
unfolding lookup cmp_bytes
build_package_frame_example =
    build_package_frame tools (ascii "p") (ascii "build/mv_interfaces") (ascii "p/Move.toml")
      compiler-IsConfined
      (unfold is_above in record { artifacts = refl; framework = refl; compiler = refl }) [] none
      before

build_package_succeeds_example :
    (build_package tools (ascii "p") [] (some (ascii "f")) before).0 ≡ ok result
unfolding lookup cmp_bytes is_utf8 framework_dir build_package_metadata build_artifact_manifest
build_package_succeeds_example =
    build_package_succeeds tools (ascii "p") [] (some (ascii "f")) before built (record {
      contents = manifest;
      has_manifest = refl;
      readable = refl;
      is_text = refl;
      there = refl;
      allowed = λ path. refl;
      compiles = λ dir e placed.
          subst
            (λ (r : Result BuildError Bytes × Disk).
              (compile_plan tools (planned (ascii "p") [] manifest) (path_of r.0) r.1).0 ≡ ok built)
            placed compiles;
      leaves_open = λ dir e placed.
          subst
            (λ (r : Result BuildError Bytes × Disk).
              (path : Bytes)
              → (compile_plan tools (planned (ascii "p") [] manifest) (path_of r.0) r.1).1.refuse
                  path
                ≡ none)
            placed leaves_open;
      writable = record {
        flat = (refl, tt);
        metadata = ascii "counter";
        encodes_metadata = refl;
        manifest = ascii "counter";
        encodes_manifest = refl;
      };
    })

abbrev empty_disk : Disk
empty_disk = record { files = []; is_dir = λ q. false; refuse = λ q. none; unreadable = λ q. none }

write_embedded_framework_again_example :
    ((write_embedded_framework
        (λ name. name)
        (ascii "f")
        (write_embedded_framework (λ name. name) (ascii "f") empty_disk).1).0
      ≡ ok tt)
    × ((write_embedded_framework
          (λ name. name)
          (ascii "f")
          (write_embedded_framework (λ name. name) (ascii "f") empty_disk).1).1.files
        ≡ (write_embedded_framework (λ name. name) (ascii "f") empty_disk).1.files)
unfolding write_embedded_framework lookup cmp_bytes insert
write_embedded_framework_again_example =
    write_embedded_framework_again (λ name. name) (ascii "f") empty_disk refl

write_embedded_framework_lem_example :
    All
      (WrittenFrom
        (ascii "f")
        empty_disk
        (write_embedded_framework (λ name. name) (ascii "f") empty_disk).1)
      (framework_table (λ name. name) framework_names)
    × ((q : Bytes)
        → All
            (λ (p : Bytes × Bytes). q ≢ mv_path (ascii "f") p.0)
            (framework_table (λ name. name) framework_names)
        → lookup q (write_embedded_framework (λ name. name) (ascii "f") empty_disk).1.files ≡ none)
unfolding write_embedded_framework lookup cmp_bytes insert
write_embedded_framework_lem_example =
    write_embedded_framework_lem (λ name. name) (ascii "f") empty_disk refl
