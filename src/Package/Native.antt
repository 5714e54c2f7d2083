-- ===== src/Package/Native.antt =====
-- crates/nexus-move-package/src/native_backend.rs: the backend over the vendored compiler. The
-- compiler is a parameter: from a disk and its options to the compiled units and the disk that it
-- leaves, since it writes interface files for the bytecode that it is given.
pub mod Options
pub mod Laws
use nexus_move.Prelude.{
  Bool, true, false, Option, none, some, List, [], ◌∷◌, ◌++◌, map, if◌then◌else◌, Bytes, ascii,
  Result, ok, err, map_err, ◌>>=◌,
}
use nexus_move.Prelude.Map.{Map, insert}
use nexus_move.Prelude.Orders.{bytes_order}
use nexus_move.Types.{display_address}
use nexus_move.Package.{
  NamedAddressAssignment, BuildPlan, BuildError, package_dir_missing, backend, CompiledModule,
  CompiledPackage, join,
}
use nexus_move.Package.Merge.{merged_named_addresses}
use nexus_move.Package.Backends.{or_text}
use nexus_move.Package.Disk.{Disk, exists}

-- `Options` of the compiler, the fields that are set.
pub record CompilerOptions : Type 0 where
  pub sources : List Bytes
  pub sources_deps : List Bytes
  pub dependencies : List Bytes
  pub named_address_mapping : List Bytes
  pub skip_attribute_checks : Bool
  pub known_attributes : Map Bytes (Unit {0})
  pub whole_program : Bool

-- `AnnotatedCompiledUnit`: a module with its name and what its `serialize` gives, or a script.
pub data CompiledUnit : Type 0 where
  module_unit : Bytes → Result Bytes Bytes → CompiledUnit
  script_unit : CompiledUnit

abbrev pub Compiler : Type 0
Compiler = Disk → CompilerOptions → Result Bytes (List CompiledUnit) × Disk

abbrev pub NativeCompileBackend : Type 0
NativeCompileBackend = record { stdlib_dirs : List Bytes; bytecode_dep_dirs : List Bytes }

-- `NativeCompileBackend::with_bytecode_deps`
abbrev pub with_bytecode_deps : List Bytes → NativeCompileBackend
with_bytecode_deps dirs = record { stdlib_dirs = []; bytecode_dep_dirs = dirs }

-- `format!("{}=0x{}", na.name, hex)`
abbrev pub address_entry : NamedAddressAssignment → Bytes
address_entry na = na.name ++ b'=' ∷ display_address na.address

-- A `BTreeSet` is a map without values.
unfoldable pub insert_all : List Bytes → Map Bytes (Unit {0}) → Map Bytes (Unit {0})
unfolding insert
insert_all [] set = set
insert_all (attr ∷ attrs) set = insert_all attrs (insert attr tt set)

abbrev pub known_attribute_view : Bytes
known_attribute_view = ascii "view"

-- `.filter(|d| d.exists())`
unfoldable pub existing : Disk → List Bytes → List Bytes
existing d [] = []
existing d (dir ∷ dirs) = let rest = existing d dirs in if exists d dir then dir ∷ rest else rest

abbrev pub serialization_failed : Bytes → Bytes
serialization_failed e = ascii "serialization failed: " ++ e

abbrev pub compilation_failed : Bytes → Bytes
compilation_failed e = ascii "compilation failed: " ++ e

-- The loop over the units: scripts are passed over, the first failure ends it.
unfoldable pub collect_modules : List CompiledUnit → Result Bytes (List CompiledModule)
collect_modules [] = ok []
collect_modules (script_unit ∷ units) = collect_modules units
collect_modules (module_unit name serialized ∷ units) =
    let rest = collect_modules units in
    map_err serialization_failed serialized >>= λ bytes.
    rest >>= λ modules. ok (record { name = name; bytes = bytes } ∷ modules)

unfoldable pub compiler_options : NativeCompileBackend → Disk → BuildPlan → CompilerOptions
unfolding insert_all existing
compiler_options b d plan = record {
  sources = join plan.options.package_dir (ascii "sources") ∷ [];
  sources_deps = existing d b.stdlib_dirs;
  dependencies = existing d b.bytecode_dep_dirs;
  named_address_mapping = map address_entry (merged_named_addresses plan);
  skip_attribute_checks = false;
  known_attributes = insert known_attribute_view tt (insert_all plan.options.known_attributes []);
  whole_program = false;
}

-- The package of the compiled modules.
abbrev pub package_of : BuildPlan → List CompiledModule → CompiledPackage
package_of plan modules = record {
  package_name = or_text (ascii "unknown") plan.move_toml.package_name;
  upgrade_policy = plan.move_toml.upgrade_policy;
  named_addresses = merged_named_addresses plan;
  modules = modules;
}

abbrev pub text_entry : Bytes × Bytes → Bytes
text_entry (name, addr) = name ++ b'=' ∷ addr

unfoldable pub source_file_options :
    Disk → Bytes → List Bytes → List Bytes → List (Bytes × Bytes) → CompilerOptions
unfolding insert_all existing
source_file_options d source_path source_dep_dirs bytecode_dep_dirs named_addresses = record {
  sources = source_path ∷ [];
  sources_deps = existing d source_dep_dirs;
  dependencies = existing d bytecode_dep_dirs;
  named_address_mapping = map text_entry named_addresses;
  skip_attribute_checks = true;
  known_attributes = insert known_attribute_view tt [];
  whole_program = false;
}

module _ (run_move_compiler : Compiler) where
  -- What follows the test for the sources.
  unfoldable pub compile_sources :
      NativeCompileBackend → Disk → BuildPlan → Result BuildError CompiledPackage × Disk
  unfolding collect_modules compiler_options
  compile_sources b d plan =
      let run = run_move_compiler d (compiler_options b d plan) in
      (
        map_err (λ e. backend (compilation_failed e)) run.0 >>= λ units.
            map_err backend (collect_modules units) >>= λ modules. ok (package_of plan modules),
        run.1,
      )

  -- `NativeCompileBackend::compile`
  unfoldable pub native_compile :
      NativeCompileBackend → Disk → BuildPlan → Result BuildError CompiledPackage × Disk
  unfolding compile_sources
  native_compile b d plan =
      let sources_dir = join plan.options.package_dir (ascii "sources") in
      if exists d sources_dir
      then compile_sources b d plan
      else (err (package_dir_missing sources_dir), d)

  -- Here a module is a pair; the record of the backend stands for it.
  unfoldable pub compile_source_file :
      Disk
      → Bytes
      → List Bytes
      → List Bytes
      → List (Bytes × Bytes)
      → Result Bytes (List CompiledModule) × Disk
  unfolding collect_modules source_file_options
  compile_source_file d source_path source_dep_dirs bytecode_dep_dirs named_addresses =
      let run =
        run_move_compiler d
          (source_file_options d source_path source_dep_dirs bytecode_dep_dirs named_addresses) in
      (map_err compilation_failed run.0 >>= collect_modules, run.1)
